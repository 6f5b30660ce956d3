-- ===== src/Long.antt =====
-- The signed integers of Java: an `int` has 32 bits, a `long` 64, and sums wrap around.
use kaf_katch.Prelude.{
  ltb, if◌then◌else◌, ◌≤◌, ℕ, ◌+◌, ◌-◌, ◌*◌, ◌%◌, ◌^◌, ◌<◌, ◌≡◌, ◌∙◌, ap, arith,
}
use kaf_katch.Prelude.Int.{ℤ, pos, negsuc, pos_part, ◌+ℤ◌, ◌-ℤ◌, ◌≤ℤ◌, int_laws}

-- The integer of a bit pattern with `half` the weight of its sign bit.
abbrev signed_of : (half bits : ℕ) → ℤ
signed_of half bits = if ltb bits half then pos bits else negsuc (2 * half - 1 - bits)

abbrev bits_of : (half : ℕ) → ℤ → ℕ
bits_of half (pos n) = n % (2 * half)
bits_of half (negsuc n) = 2 * half - 1 - n % (2 * half)

-- The `int` and the `long` of Java wrap around.
unfoldable pub to_int : ℤ → ℤ
to_int z = signed_of (2 ^ 31) (bits_of (2 ^ 31) z)

unfoldable pub to_long : ℤ → ℤ
to_long z = signed_of (2 ^ 63) (bits_of (2 ^ 63) z)

pub to_int_exact : (n : ℕ) → n < 2 ^ 31 → to_int (pos n) ≡ pos n
unfolding to_int
to_int_exact n h = ground arith

pub to_long_exact : (z : ℤ) → negsuc (2 ^ 63 - 1) ≤ℤ z → z ≤ℤ pos (2 ^ 63 - 1) → to_long z ≡ z
unfolding to_long
to_long_exact (pos n) low high = ground arith
to_long_exact (negsuc n) low high = ground arith

-- A sum of sums that wrap is the sum that wraps once.
pub to_long-add : (a b : ℤ) → to_long (to_long a +ℤ b) ≡ to_long (a +ℤ b)
unfolding to_long ◌+ℤ◌
to_long-add (pos a) (pos b) = ground arith
to_long-add (pos a) (negsuc b) = ground arith
to_long-add (negsuc a) (pos b) = ground arith
to_long-add (negsuc a) (negsuc b) = ground arith

pub to_long-sub : (a b : ℤ) → to_long (to_long a -ℤ b) ≡ to_long (a -ℤ b)
unfolding to_long ◌-ℤ◌
to_long-sub (pos a) (pos b) = ground arith
to_long-sub (pos a) (negsuc b) = ground arith
to_long-sub (negsuc a) (pos b) = ground arith
to_long-sub (negsuc a) (negsuc b) = ground arith

pub to_int-add : (a b : ℤ) → to_int (to_int a +ℤ b) ≡ to_int (a +ℤ b)
unfolding to_int ◌+ℤ◌
to_int-add (pos a) (pos b) = ground arith
to_int-add (pos a) (negsuc b) = ground arith
to_int-add (negsuc a) (pos b) = ground arith
to_int-add (negsuc a) (negsuc b) = ground arith

-- Taking a value off a sum by adding what negation makes of it.
pub to_long-take : (t v : ℤ) → to_long (to_long t +ℤ to_long (pos 0 -ℤ v)) ≡ to_long (t -ℤ v)
to_long-take t v =
    let swap : t +ℤ to_long (pos 0 -ℤ v) ≡ to_long (pos 0 -ℤ v) +ℤ t = omega int_laws in
    let less : (pos 0 -ℤ v) +ℤ t ≡ t -ℤ v = omega int_laws in
    to_long-add t (to_long (pos 0 -ℤ v))
    ∙ ap to_long swap
    ∙ to_long-add (pos 0 -ℤ v) t
    ∙ ap to_long less

pub to_int-take : (t v : ℤ) → to_int (to_int t +ℤ to_int (pos 0 -ℤ v)) ≡ to_int (t -ℤ v)
to_int-take t v =
    let swap : t +ℤ to_int (pos 0 -ℤ v) ≡ to_int (pos 0 -ℤ v) +ℤ t = omega int_laws in
    let less : (pos 0 -ℤ v) +ℤ t ≡ t -ℤ v = omega int_laws in
    to_int-add t (to_int (pos 0 -ℤ v)) ∙ ap to_int swap ∙ to_int-add (pos 0 -ℤ v) t ∙ ap to_int less

-- A value that an `int` counts up to.
abbrev pub IsCounter : ℤ → Type 0
IsCounter z = (pos 0 ≤ℤ z) × (z ≤ℤ pos (2 ^ 31 - 1))

pub to_long-counter :
    (a : ℕ) (z : ℤ)
    → IsCounter z
    → a + 2 ^ 31 ≤ 2 ^ 63
    → to_long (pos a +ℤ z) ≡ pos (a + pos_part z)
unfolding to_long ◌+ℤ◌
to_long-counter a (pos n) h room = ground arith
to_long-counter a (negsuc n) h room = absurd (omega arith)
