-- ===== src/Bits.antt =====
-- The bit operations of a machine word, digit by digit: `w & (1 << k) != 0`, `w | (1 << k)` and
-- `w & !(1 << k)`.
use meshbus_rs.Prelude.{ℕ, zero, suc, ◌+◌, ◌*◌, ◌/◌, ◌%◌, ◌==◌, ◌<◌, Bool, true, false}
use meshbus_rs.Prelude.{if◌then◌else◌, ◌≡◌, refl, arith}

unfoldable pub test_bit : ℕ → ℕ → Bool
test_bit w zero = w % 2 == 1
test_bit w (suc k) = test_bit (w / 2) k

unfoldable pub set_bit : ℕ → ℕ → ℕ
set_bit w zero = w / 2 * 2 + 1
set_bit w (suc k) = w % 2 + 2 * set_bit (w / 2) k

unfoldable pub clear_bit : ℕ → ℕ → ℕ
clear_bit w zero = w / 2 * 2
clear_bit w (suc k) = w % 2 + 2 * clear_bit (w / 2) k

half_digit : (b x : ℕ) → b < 2 → ((b + 2 * x) / 2 ≡ x) × ((b + 2 * x) % 2 ≡ b)
half_digit b x h = omega arith

pub test_bit-set_bit :
    (w k j : ℕ) → test_bit (set_bit w k) j ≡ (if k == j then true else test_bit w j)
unfolding test_bit set_bit
test_bit-set_bit w zero zero = ground arith
test_bit-set_bit w zero (suc j) = ground (arith, half_digit 1 (w / 2))
test_bit-set_bit w (suc k) zero = ground (arith, half_digit (w % 2) (set_bit (w / 2) k))
test_bit-set_bit w (suc k) (suc j) =
    ground (arith, half_digit (w % 2) (set_bit (w / 2) k), test_bit-set_bit (w / 2) k j)

pub test_bit-clear_bit :
    (w k j : ℕ) → test_bit (clear_bit w k) j ≡ (if k == j then false else test_bit w j)
unfolding test_bit clear_bit
test_bit-clear_bit w zero zero = ground arith
test_bit-clear_bit w zero (suc j) = ground (arith, half_digit 0 (w / 2))
test_bit-clear_bit w (suc k) zero = ground (arith, half_digit (w % 2) (clear_bit (w / 2) k))
test_bit-clear_bit w (suc k) (suc j) =
    ground (arith, half_digit (w % 2) (clear_bit (w / 2) k), test_bit-clear_bit (w / 2) k j)

pub test_bit-zero : (k : ℕ) → test_bit 0 k ≡ false
unfolding test_bit
test_bit-zero zero = refl
test_bit-zero (suc k) = test_bit-zero k
