-- ===== src/Reorder/Tests.antt =====
-- The reorder buffers on a few packages.
use meshbus_rs.Prelude.{
  Bytes, ℕ, ◌+◌, ◌≤◌, ◌&&◌, leb, not, contains_key, length, text, List, [], ◌∷◌, none, some, ◌<◌,
  ◌==◌, inl, inr, Bool-cases, head, later, ◌≡◌, refl, All, In, arith, nat_eq,
}
use meshbus_rs.MeshProto.Types.{DataPackage}
use meshbus_rs.Reorder.Family.{
  FamilyReorderState, new_family, push_package, missing_ranges_of, drain, store, rebuild_bitmap,
  deliver_from, bitmap_of, Packages,
}
use meshbus_rs.Reorder.Family.Missing.{names, names-missing_ranges_of}
use meshbus_rs.Reorder.Family.Deliver.{IsRun, Drained, drain-Drained, IsKeyed}
use meshbus_rs.Reorder.Family.Invariant.{Pushed, push_package-Pushed, new_family-IsValid}
use meshbus_rs.Reorder.Family.Stream.{push_all, push_all_consecutive}
use meshbus_rs.Reorder.Family.Complete.{push_all_complete}
use meshbus_rs.Reorder.Buffer.{BufferOp, run_buffer, new_buffer, segment, run_buffer_in_order}

abbrev numbered : ℕ → DataPackage
numbered seq = record {
  package_id = text "p";
  seq = seq;
  offset = 0;
  len = 1;
  fragment_id = 0;
  fragment_count = 1;
  payload = seq ∷ [];
}

abbrev family : FamilyReorderState
family = new_family (text "f") 5 16 100

abbrev arrivals : List DataPackage
arrivals = numbered 6 ∷ numbered 8 ∷ numbered 5 ∷ numbered 6 ∷ []

push_all_consecutive_example :
    IsRun 5 (push_all family arrivals).0
    × All (λ p. In p arrivals) (push_all family arrivals).0
    × ((push_all family arrivals).1.next_expected_seq ≡ 5 + length (push_all family arrivals).0)
push_all_consecutive_example = push_all_consecutive (text "f") 5 16 100 arrivals

arrivals_cover : (k : ℕ) → 5 ≤ k → k < 5 + 2 → (p : DataPackage) × In p arrivals × (p.seq ≡ k)
arrivals_cover k h h' = elim (Bool-cases (k == 5)) [
  | inl e ↦ (numbered 5, later (later (head refl)), ground (arith, e))
  | inr e ↦ (numbered 6, head refl, ground (arith, e, h, h'))
]

stays_open : (push_all family arrivals).1.closed ≡ none
unfolding push_all push_package store rebuild_bitmap new_family deliver_from drain bitmap_of
stays_open = refl

push_all_complete_example : 2 ≤ length (push_all family arrivals).0
push_all_complete_example =
    push_all_complete (text "f") 5 16 100 2 arrivals arrivals_cover stays_open

push_package-Pushed_example : Pushed family (push_package family (numbered 5))
push_package-Pushed_example =
    push_package-Pushed family (numbered 5) (new_family-IsValid (text "f") 5 16 100)

abbrev with_gap : FamilyReorderState
with_gap = (push_package family (numbered 8)).1

saw_eight : with_gap.highest_seen ≡ some 8
unfolding push_package store rebuild_bitmap new_family
saw_eight = refl

names-missing_ranges_of_example :
    names (missing_ranges_of with_gap) 6
    ≡ (leb with_gap.next_expected_seq 6 && (leb 6 8 && not (contains_key 6 with_gap.buffer)))
names-missing_ranges_of_example = names-missing_ranges_of with_gap 8 6 saw_eight

abbrev pair : Packages
pair = (6, numbered 6) ∷ (9, numbered 9) ∷ []

pair-IsKeyed : IsKeyed pair
pair-IsKeyed k p e = ground (arith, e)

drain-Drained_example : Drained pair 6 (drain 2 pair 6)
drain-Drained_example = drain-Drained 2 pair 6 (omega arith) pair-IsKeyed

abbrev counting : ℕ → Bytes
counting n = n ∷ []

abbrev calls : List BufferOp
calls =
    BufferOp.insert_op 4 (4 ∷ [])
    ∷ BufferOp.insert_op 3 (3 ∷ [])
    ∷ BufferOp.poll_op
    ∷ BufferOp.insert_op 3 (3 ∷ [])
    ∷ BufferOp.poll_op
    ∷ []

run_buffer_in_order_example : (n : ℕ) × (run_buffer (new_buffer 3) calls ≡ segment counting 3 n)
run_buffer_in_order_example = run_buffer_in_order counting 3 calls (refl, (refl, (refl, tt)))
