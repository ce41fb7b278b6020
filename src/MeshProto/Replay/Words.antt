-- ===== src/MeshProto/Replay/Words.antt =====
-- A bit of a vector of words, read and written.
use meshbus_rs.Prelude.{ℕ, ◌*◌, ◌/◌, ◌%◌, ◌<◌, ◌==◌, Bool, true, false}
use meshbus_rs.Prelude.{List, get_or, set, replicate, length, get_or-set}
use meshbus_rs.Prelude.{get_or-replicate, if◌then◌else◌, ◌≡◌, arith}
use meshbus_rs.Bits.{test_bit, set_bit, clear_bit, test_bit-set_bit}
use meshbus_rs.Bits.{test_bit-clear_bit, test_bit-zero}

-- The bit at a place of the vector.
abbrev pub bit_at : List ℕ → ℕ → Bool
bit_at bits i = test_bit (get_or bits (i / 64) 0) (i % 64)

same_place : (i j : ℕ) → ((i / 64 == j / 64) ≡ true) → ((i % 64 == j % 64) ≡ (i == j))
same_place i j h = ground arith

pub bit_at-set :
    (bits : List ℕ) (i j : ℕ)
    → i < length bits * 64
    → bit_at (set bits (i / 64) (set_bit (get_or bits (i / 64) 0) (i % 64))) j
      ≡ (if i == j then true else bit_at bits j)
bit_at-set bits i j h = ground (
  arith,
  get_or-set bits (i / 64) (j / 64) (set_bit (get_or bits (i / 64) 0) (i % 64)) 0,
  test_bit-set_bit (get_or bits (i / 64) 0) (i % 64) (j % 64),
)

pub bit_at-clear :
    (bits : List ℕ) (i j : ℕ)
    → i < length bits * 64
    → bit_at (set bits (i / 64) (clear_bit (get_or bits (i / 64) 0) (i % 64))) j
      ≡ (if i == j then false else bit_at bits j)
bit_at-clear bits i j h = ground (
  arith,
  get_or-set bits (i / 64) (j / 64) (clear_bit (get_or bits (i / 64) 0) (i % 64)) 0,
  test_bit-clear_bit (get_or bits (i / 64) 0) (i % 64) (j % 64),
)

pub bit_at-replicate : (n j : ℕ) → bit_at (replicate n 0) j ≡ false
bit_at-replicate n j = rw (get_or-replicate n (j / 64)) (test_bit-zero (j % 64))
