-- ===== src/MeshProto/Tests.antt =====
-- The replay cache on a few packets.
use meshbus_rs.Prelude.{ℕ, text, List, [], ◌∷◌, ◌≡◌, ◌≢◌, refl, ok, arith, text_eq}
use meshbus_rs.MeshProto.Replay
use meshbus_rs.Bits.{test_bit, clear_bit, set_bit}
use meshbus_rs.MeshProto.Replay.Cache.{
  after_calls, no_replay, check_and_insert_refines, new_cache-Holds, Holds, accepted_under,
}
use meshbus_rs.MeshProto.Replay.Refine.{accept}

abbrev peer : Replay.WindowKey
peer = (text "peer", 1, 7 ∷ [])

abbrev first_packets : List (Replay.WindowKey × ℕ)
first_packets = (peer, 3) ∷ (peer, 200) ∷ []

abbrev later_packets : List (Replay.WindowKey × ℕ)
later_packets = (peer, 201) ∷ (peer, 260) ∷ []

-- 150 is within the window of 128 numbers that ends at 200.
accepts_late :
    (Replay.check_and_insert (after_calls (Replay.new_cache 128) first_packets) peer 150).0 ≡ ok tt
unfolding Replay.check_and_insert Replay.check_window Replay.window_of Replay.or_new after_calls
    Replay.new_cache Replay.window_key_eq text_eq Replay.new_window Replay.test test_bit
    Replay.set_counter Replay.advance
accepts_late = refl

no_replay_example :
    (Replay.check_and_insert
      (after_calls
        (Replay.check_and_insert (after_calls (Replay.new_cache 128) first_packets) peer 150).1
        later_packets)
      peer
      150).0
    ≢ ok tt
no_replay_example = no_replay 128 first_packets later_packets peer 150 (omega arith) accepts_late

check_and_insert_refines_example :
    ((Replay.check_and_insert (Replay.new_cache 128) peer 9).0 ≡ (accept 128 [] 9).0)
    × Holds 128
        (Replay.check_and_insert (Replay.new_cache 128) peer 9).1
        (accepted_under peer (accept 128 [] 9).1 (λ k. []))
check_and_insert_refines_example =
    check_and_insert_refines peer 9 (new_cache-Holds 128 (omega arith))

-- A window of 66 numbers over 64 bits: the skipped number 64 clears the bit of 0, and 0, which was
-- accepted first, is accepted again.
accepts_again :
    (Replay.check_and_insert
      (after_calls (Replay.new_cache 66) ((peer, 0) ∷ (peer, 65) ∷ []))
      peer
      0).0
    ≡ ok tt
unfolding Replay.check_and_insert Replay.check_window Replay.window_of Replay.or_new after_calls
    Replay.new_cache Replay.window_key_eq text_eq Replay.new_window Replay.test test_bit
    Replay.set_counter Replay.advance Replay.clear_range Replay.clear clear_bit set_bit
accepts_again = refl
