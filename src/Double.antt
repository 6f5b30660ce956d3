-- ===== src/Double.antt =====
-- The C type `double` is a parameter: its operations are IEEE 754, which the sources only use.
use kaf_katch.Prelude.{ℕ, ◌-◌, ◌^◌, ◌≡◌, List}
use kaf_katch.Prelude.Int.{ℤ, pos, negsuc, ◌+ℤ◌, ◌*ℤ◌, ◌≤ℤ◌}

pub record Double : Type 1 where
  pub Carrier : Type 0
  pub of_int : ℤ → Carrier
  pub add : Carrier → Carrier → Carrier
  pub mul : Carrier → Carrier → Carrier
  pub div : Carrier → Carrier → Carrier
  -- `%.1f` of printf, as the bytes that it prints
  pub print_1f : Carrier → List ℕ

-- The integers that a double holds without rounding.
abbrev pub Fits : ℤ → Type 0
Fits z = (negsuc (2 ^ 53 - 1) ≤ℤ z) × (z ≤ℤ pos (2 ^ 53))

-- IEEE 754: a sum or a product of two integers is exact where it and its arguments need no
-- rounding.
pub record IsExact (F : Double) : Type 0 where
  pub of_int-add :
      (a b : ℤ)
      → Fits a
      → Fits b
      → Fits (a +ℤ b)
      → F.add (F.of_int a) (F.of_int b) ≡ F.of_int (a +ℤ b)
  pub of_int-mul :
      (a b : ℤ)
      → Fits a
      → Fits b
      → Fits (a *ℤ b)
      → F.mul (F.of_int a) (F.of_int b) ≡ F.of_int (a *ℤ b)
