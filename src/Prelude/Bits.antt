-- ===== src/Prelude/Bits.antt =====
-- The lowest digits of a number: what is left of it under a mask of ones.
use Prim.Native.Nat.{
  ℕ, zero, suc, ◌+◌, ◌-◌, ◌*◌, ◌/◌, ◌%◌, ◌^◌, ◌≤◌, ◌<◌, min, bit_and, digits, bit_and-bitwise,
}
use mathlib.Core.Path.{◌≡◌, ◌∙◌}
use native.Mathlib.Omega.{arith}
use native.Mathlib.Nat.{pow-suc}

-- `n` ones in the low bits.
unfoldable pub low_mask : ℕ → ℕ
low_mask n = 2 ^ n - 1

power_pos : (n : ℕ) → 0 < 2 ^ n
power_pos zero = omega arith
power_pos (suc n) = rw pow-suc (omega (arith, power_pos n))

zero_mod : (n : ℕ) → 0 ≡ 0 % 2 ^ n
zero_mod n = let positive = power_pos n in grind arith

low_mask_even : (n : ℕ) → low_mask (suc n) / 2 ≡ low_mask n
unfolding low_mask
low_mask_even n = rw pow-suc (omega (arith, power_pos n))

low_mask_odd : (n : ℕ) → low_mask (suc n) % 2 ≡ 1
unfolding low_mask
low_mask_odd n = rw pow-suc (omega (arith, power_pos n))

-- One digit more of a remainder.
digit_mod : (a n : ℕ) → a / 2 % 2 ^ n * 2 + a % 2 ≡ a % 2 ^ suc n
digit_mod a n = let positive = power_pos n in rw pow-suc (grind arith)

min_bit : (a : ℕ) → min (a % 2) 1 ≡ a % 2
min_bit a = omega arith

-- The digits that `bit_and` takes one by one, with enough of them to go.
digits-low_mask :
    (count n a : ℕ) → a ≤ count → digits (λ _. zero) min count a (low_mask n) ≡ a % 2 ^ n
unfolding low_mask
digits-low_mask zero n zero h = zero_mod n
digits-low_mask zero n (suc a) h = absurd (omega arith)
digits-low_mask (suc count) n zero h = zero_mod n
digits-low_mask (suc count) zero (suc a) h =
    omega (arith, digits-low_mask count zero (suc a / 2) (omega arith))
digits-low_mask (suc count) (suc n) (suc a) h =
    rw
      (
        low_mask_even n,
        low_mask_odd n,
        digits-low_mask count n (suc a / 2) (omega arith),
        min_bit (suc a),
      )
      (digit_mod (suc a) n)

pub bit_and-low_mask : (n a : ℕ) → bit_and a (low_mask n) ≡ a % 2 ^ n
bit_and-low_mask n a = bit_and-bitwise a (low_mask n) ∙ digits-low_mask a n a (omega arith)
