-- ===== src/MeshProto/Replay/Bitmap.antt =====
-- The circular bitmap of a window: reads after writes, at counters that lie close enough together.
use meshbus_rs.Prelude.{ℕ, zero, suc, ◌+◌, ◌*◌, ◌%◌, ◌≤◌, ◌<◌, ◌==◌, ltb, leb, true, false}
use meshbus_rs.Prelude.{List, length, length-set, length-replicate, replicate, ◌&&◌}
use meshbus_rs.Prelude.{if◌then◌else◌, ◌≡◌, ◌≢◌, refl, ◌∙◌, arith}
use native.Mathlib.Nat.{div-add-mod, mod-lt}
use meshbus_rs.MeshProto.Replay.{index, test, set_counter, clear, clear_range}
use meshbus_rs.MeshProto.Replay.Words.{bit_at-set, bit_at-clear, bit_at-replicate}

-- Two counters less than `m` apart do not share a place of a circle of `m` places.
mod_ne : (m c d : ℕ) → c < d → d < c + m → c % m ≢ d % m
mod_ne m c d h k e = grind (arith, div-add-mod c m, div-add-mod d m)

pub same_index : (m c d : ℕ) → c < d + m → d < c + m → ((c % m) == (d % m)) ≡ (c == d)
same_index m c d h k = ground (arith, mod_ne m c d, mod_ne m d c)

pub length-set_counter : (bits : List ℕ) (c : ℕ) → length (set_counter bits c) ≡ length bits
unfolding set_counter
length-set_counter bits c = length-set bits _ _

pub length-clear : (bits : List ℕ) (c : ℕ) → length (clear bits c) ≡ length bits
unfolding clear
length-clear bits c = length-set bits _ _

module _ (bits : List ℕ) (c d : ℕ) (some_word : 0 < length bits) (near : c < d + length bits * 64)
    (near' : d < c + length bits * 64) where
  pub test-set_counter : test (set_counter bits c) d ≡ (if c == d then true else test bits d)
  unfolding test set_counter
  test-set_counter = rw (
    length-set,
    bit_at-set bits (index bits c) (index bits d) (mod-lt c (omega arith)),
    same_index (length bits * 64) c d near near',
  )

  pub test-clear : test (clear bits c) d ≡ (if c == d then false else test bits d)
  unfolding test clear
  test-clear = rw (
    length-set,
    bit_at-clear bits (index bits c) (index bits d) (mod-lt c (omega arith)),
    same_index (length bits * 64) c d near near',
  )

pub length-clear_range :
    (bits : List ℕ) (from n : ℕ) → length (clear_range bits from n) ≡ length bits
unfolding clear_range
length-clear_range bits from zero = refl
length-clear_range bits from (suc n) =
    length-clear_range (clear bits from) (from + 1) n ∙ length-clear bits from

-- A cleared range reads as false, and the rest as before.
pub test-clear_range :
    (bits : List ℕ) (from n d : ℕ)
    → 0 < length bits
    → from + n ≤ d + length bits * 64
    → d < from + length bits * 64
    → test (clear_range bits from n) d
      ≡ (if leb from d && ltb d (from + n) then false else test bits d)
unfolding clear_range
test-clear_range bits from zero d w h k = ground arith
test-clear_range bits from (suc n) d w h k = ground (
  arith,
  length-clear bits from,
  test-clear_range (clear bits from) (from + 1) n d,
  test-clear bits from d w,
)

pub test-replicate : (n d : ℕ) → test (replicate n 0) d ≡ false
unfolding test
test-replicate n d = rw length-replicate (bit_at-replicate n (d % (n * 64)))
