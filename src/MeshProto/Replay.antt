-- ===== src/MeshProto/Replay.antt =====
-- lib/mb-proto-mesh/src/replay.rs: the sliding replay window of one key, and the cache of windows.
pub mod Words
pub mod Bitmap
pub mod Refine
pub mod Cache
use meshbus_rs.Bits.{test_bit, set_bit, clear_bit}
use meshbus_rs.Prelude.{ℕ, zero, suc, ◌+◌, ◌-◌, ◌*◌, ◌/◌, ◌%◌, max, ltb, leb, ◌==◌, Text, text_eq}
use meshbus_rs.Prelude.{
  text_eq_iff, Eq, Bool, true, false, ◌&&◌, List, [], ◌∷◌, get_or, set, replicate,
}
use meshbus_rs.Prelude.{
  length, Result, ok, err, lookup, insert, Option, none, some, if◌then◌else◌, not, ◌≡◌, ◌↔◌, arith,
}

pub data MeshSecError : Type 0 where
  truncated : MeshSecError
  unsupported_version : ℕ → MeshSecError
  payload_too_large auth replay replay_too_old : MeshSecError
  serialize : Text → MeshSecError

pub record Window : Type 0 where
  pub highest : ℕ
  pub seen : Bool
  pub bits : List ℕ

unfoldable pub new_window : ℕ → Window
new_window words = record { highest = 0; seen = false; bits = replicate words 0 }

-- `counter % (bits.len() * 64)`
abbrev pub index : List ℕ → ℕ → ℕ
index bits counter = counter % (length bits * 64)

unfoldable pub test : List ℕ → ℕ → Bool
test bits counter = test_bit (get_or bits (index bits counter / 64) 0) (index bits counter % 64)

unfoldable pub set_counter : List ℕ → ℕ → List ℕ
set_counter bits counter =
    set bits (index bits counter / 64)
      (set_bit (get_or bits (index bits counter / 64) 0) (index bits counter % 64))

unfoldable pub clear : List ℕ → ℕ → List ℕ
clear bits counter =
    set bits (index bits counter / 64)
      (clear_bit (get_or bits (index bits counter / 64) 0) (index bits counter % 64))

-- `for skipped in from..from + n { window.clear(skipped) }`
unfoldable pub clear_range : List ℕ → ℕ → ℕ → List ℕ
clear_range bits from zero = bits
clear_range bits from (suc n) = clear_range (clear bits from) (from + 1) n

-- What is left of the bits when a new highest counter comes.
unfoldable pub advance : ℕ → Window → ℕ → List ℕ
advance window_bits w counter =
    if leb window_bits (counter - w.highest)
    then replicate (length w.bits) 0
    else clear_range w.bits (w.highest + 1) (counter - (w.highest + 1))

-- The body of `check_and_insert` on the key's window.
unfoldable pub check_window : ℕ → Window → ℕ → Result MeshSecError (Unit {0}) × Window
check_window window_bits w counter =
    if not w.seen
    then (ok tt, record { highest = counter; seen = true; bits = set_counter w.bits counter })
    else if ltb w.highest counter
    then (
      ok tt,
      record {
        highest = counter;
        seen = true;
        bits = set_counter (advance window_bits w counter) counter;
      },
    )
    else if leb window_bits (w.highest - counter)
    then (err MeshSecError.replay_too_old, w)
    else if test w.bits counter
    then (err MeshSecError.replay, w)
    else (ok tt, record w { bits = set_counter w.bits counter })

-- `(peer_id, epoch_number, boot_salt)`
abbrev pub WindowKey : Type 0
WindowKey = Text × ℕ × List ℕ

unfoldable pub window_key_eq : WindowKey → WindowKey → Bool
window_key_eq (p, n, s) (q, m, t) = text_eq p q && (n == m && text_eq s t)

pub window_key_eq_iff : (j k : WindowKey) → (window_key_eq j k ≡ true) ↔ (j ≡ k)
unfolding window_key_eq
window_key_eq_iff (p, n, s) (q, m, t) = ground (arith, text_eq_iff p q, text_eq_iff s t)

instance abbrev pub window_key_eq_inst : Eq WindowKey
window_key_eq_inst = record { beq = window_key_eq; beq_iff = window_key_eq_iff }

pub record MeshSecReplayCache : Type 0 where
  pub words : ℕ
  pub window_bits : ℕ
  pub windows : List (WindowKey × Window)

unfoldable pub new_cache : ℕ → MeshSecReplayCache
new_cache window_bits = record {
  words = max (window_bits / 64) 1;
  window_bits = window_bits;
  windows = [];
}

unfoldable pub or_new : ℕ → Option Window → Window
or_new words none = new_window words
or_new words (some w) = w

-- `entry(key).or_insert_with(|| Window::new(words))`
unfoldable pub window_of : MeshSecReplayCache → WindowKey → Window
window_of c k = or_new c.words (lookup k c.windows)

unfoldable pub check_and_insert :
    MeshSecReplayCache → WindowKey → ℕ → Result MeshSecError (Unit {0}) × MeshSecReplayCache
check_and_insert c k counter =
    let (r, w) = check_window c.window_bits (window_of c k) counter in
    (r, record c { windows = insert k w c.windows })
