-- ===== src/Text.antt =====
-- Text as the list of its bytes, and the conversions of printf and inet_ntop that the sniffer uses.
use Prim.Native.Char.{code}
use Prim.Native.String.{String}
use native.Mathlib.Nat.{pow-suc}
use kaf_katch.Prelude.Int.{ℤ, pos, negsuc}
use kaf_katch.Prelude.{
  ℕ, zero, suc, ◌+◌, ◌-◌, ◌*◌, ◌/◌, ◌%◌, ◌^◌, ◌≤◌, ◌<◌, ◌≡◌, refl, ◌∙◌, ap, inl, inr, Bool-cases,
  ltb, if◌then◌else◌, List, [], ◌∷◌, ◌++◌, length, length-append, arith,
}

abbrev pub codes : String → List ℕ
codes String.[] = []
codes (String.◌∷◌ c s) = code c ∷ codes s

-- The pieces of a text, one after the other.
unfoldable pub join : List (List ℕ) → List ℕ
join [] = []
join (xs ∷ xss) = xs ++ join xss

abbrev pub total_length : List (List ℕ) → ℕ
total_length [] = 0
total_length (xs ∷ xss) = length xs + total_length xss

pub length-join : (xss : List (List ℕ)) → length (join xss) ≡ total_length xss
unfolding join
length-join [] = refl
length-join (xs ∷ xss) = length-append xs (join xss) ∙ ap (◌+◌ (length xs)) (length-join xss)

-- `%u`: the digits of a number. The fuel bounds the digits.
unfoldable pub digits_loop : ℕ → ℕ → List ℕ
digits_loop zero n = []
digits_loop (suc fuel) n =
    let rest = digits_loop fuel (n / 10) in
    if ltb n 10 then (48 + n) ∷ [] else rest ++ (48 + n % 10) ∷ []

-- `n + 1` units of fuel are enough for `n`, and so are `k` for a number of `k` digits.
unfoldable pub decimal : ℕ → List ℕ
unfolding digits_loop
decimal n = digits_loop (suc n) n

-- The number that a list of digits stands for.
unfoldable pub digits_value : ℕ → List ℕ → ℕ
digits_value acc [] = acc
digits_value acc (c ∷ cs) = digits_value (acc * 10 + (c - 48)) cs

digits_value-append :
    (acc : ℕ) (xs ys : List ℕ) → digits_value acc (xs ++ ys) ≡ digits_value (digits_value acc xs) ys
unfolding digits_value
digits_value-append acc [] ys = refl
digits_value-append acc (x ∷ xs) ys = digits_value-append (acc * 10 + (x - 48)) xs ys

digits_value-digits_loop : (fuel n : ℕ) → n < fuel → digits_value 0 (digits_loop fuel n) ≡ n
unfolding digits_loop digits_value
digits_value-digits_loop zero n h = absurd (omega arith)
digits_value-digits_loop (suc fuel) n h = elim (Bool-cases (ltb n 10)) [
  | inl small ↦ rw (small, digits_loop) (omega arith)
  | inr large ↦ ground (
    arith,
    digits_value-append 0 (digits_loop fuel (n / 10)) ((48 + n % 10) ∷ []),
    digits_value-digits_loop fuel (n / 10),
  )
]

-- Printing a number and reading its digits gives it back.
pub digits_value-decimal : (n : ℕ) → digits_value 0 (decimal n) ≡ n
unfolding decimal
digits_value-decimal n = digits_value-digits_loop (suc n) n (omega arith)

-- A number below 10 ^ k has at most k digits, whatever the fuel.
length-digits_loop : (k fuel n : ℕ) → n < 10 ^ suc k → length (digits_loop fuel n) ≤ suc k
unfolding digits_loop
length-digits_loop k zero n h = omega arith
length-digits_loop zero (suc fuel) n h = ground arith
length-digits_loop (suc k) (suc fuel) n h = elim (Bool-cases (ltb n 10)) [
  | inl small ↦ rw (small, digits_loop) (omega arith)
  | inr large ↦
      let wide : 10 ^ suc (suc k) ≡ 10 ^ suc k * 10 = pow-suc 10 (suc k) in
      ground (
        arith,
        length-append (digits_loop fuel (n / 10)) ((48 + n % 10) ∷ []),
        length-digits_loop k fuel (n / 10) (omega arith),
      )
]

-- The digits of a uint32_t and of a uint16_t.
pub length-decimal_u32 : (n : ℕ) → n < 2 ^ 32 → length (decimal n) ≤ 10
unfolding decimal
length-decimal_u32 n h = length-digits_loop 9 (suc n) n (omega arith)

pub length-decimal_u16 : (n : ℕ) → n < 2 ^ 16 → length (decimal n) ≤ 5
unfolding decimal
length-decimal_u16 n h = length-digits_loop 4 (suc n) n (omega arith)

pub length-decimal_u8 : (n : ℕ) → n < 256 → length (decimal n) ≤ 3
unfolding decimal
length-decimal_u8 n h = length-digits_loop 2 (suc n) n (omega arith)

-- inet_ntop(AF_INET, …) of an address as a little-endian host loads it: the octets in their order
-- in memory, with dots.
unfoldable pub inet_ntop : ℕ → List ℕ
inet_ntop a =
    decimal (a % 256)
    ++ b'.'
      ∷ (decimal (a / 256 % 256)
          ++ b'.' ∷ (decimal (a / 65536 % 256) ++ b'.' ∷ decimal (a / 16777216 % 256)))

-- INET_ADDRSTRLEN is 16: the text fits, with its end.
pub length-inet_ntop : (a : ℕ) → length (inet_ntop a) < 16
unfolding inet_ntop
length-inet_ntop a = omega (
  arith,
  length-decimal_u8 (a % 256) (omega arith),
  length-decimal_u8 (a / 256 % 256) (omega arith),
  length-decimal_u8 (a / 65536 % 256) (omega arith),
  length-decimal_u8 (a / 16777216 % 256) (omega arith),
  length-append (decimal (a % 256)) (
      b'.'
      ∷ (decimal (a / 256 % 256)
          ++ b'.' ∷ (decimal (a / 65536 % 256) ++ b'.' ∷ decimal (a / 16777216 % 256)))),
  length-append (decimal (a / 256 % 256))
      (b'.' ∷ (decimal (a / 65536 % 256) ++ b'.' ∷ decimal (a / 16777216 % 256))),
  length-append (decimal (a / 65536 % 256)) (b'.' ∷ decimal (a / 16777216 % 256)),
)

inet_ntop_test : inet_ntop (10 + 256 * (42 + 256 * (1 + 256 * 228))) ≡ codes "10.42.1.228"
unfolding inet_ntop decimal
inet_ntop_test = refl

-- `n` times a character.
unfoldable pub replicate : ℕ → ℕ → List ℕ
replicate zero c = []
replicate (suc n) c = c ∷ replicate n c

length-replicate : (n c : ℕ) → length (replicate n c) ≡ n
unfolding replicate
length-replicate zero c = refl
length-replicate (suc n) c = omega (arith, length-replicate n c)

-- `%5s` and `%-5s`: at least as many characters as the width, blanks to the left or to the right.
unfoldable pub pad_left : ℕ → List ℕ → List ℕ
pad_left width text = replicate (width - length text) b' ' ++ text

unfoldable pub pad_right : ℕ → List ℕ → List ℕ
pad_right width text = text ++ replicate (width - length text) b' '

-- `%06u`
unfoldable pub pad_zeros : ℕ → List ℕ → List ℕ
pad_zeros width text = replicate (width - length text) b'0' ++ text

pub length-pad_left :
    (width : ℕ) (text : List ℕ) → length text ≤ width → length (pad_left width text) ≡ width
unfolding pad_left
length-pad_left width text h =
    let blanks = replicate (width - length text) b' ' in
    omega (arith, length-append blanks text, length-replicate (width - length text) b' ')

pub length-pad_right :
    (width : ℕ) (text : List ℕ) → length text ≤ width → length (pad_right width text) ≡ width
unfolding pad_right
length-pad_right width text h =
    let blanks = replicate (width - length text) b' ' in
    omega (arith, length-append text blanks, length-replicate (width - length text) b' ')

pub length-pad_zeros :
    (width : ℕ) (text : List ℕ) → length text ≤ width → length (pad_zeros width text) ≡ width
unfolding pad_zeros
length-pad_zeros width text h =
    let blanks = replicate (width - length text) b'0' in
    omega (arith, length-append blanks text, length-replicate (width - length text) b'0')

-- `%02x` of a byte.
abbrev hex_digit : ℕ → ℕ
hex_digit n = if ltb n 10 then 48 + n else 87 + n

unfoldable pub hex_byte : ℕ → List ℕ
hex_byte n = hex_digit (n / 16) ∷ hex_digit (n % 16) ∷ []

-- `%d` of an `int`.
unfoldable pub signed : ℤ → List ℕ
signed (pos n) = decimal n
signed (negsuc n) = b'-' ∷ decimal (suc n)

-- `%06ld`: the sign comes before the zeros.
unfoldable pub signed_06 : ℤ → List ℕ
signed_06 (pos n) = pad_zeros 6 (decimal n)
signed_06 (negsuc n) = b'-' ∷ pad_zeros 5 (decimal (suc n))

pub length-signed_06 : (n : ℕ) → n < 1000000 → length (signed_06 (pos n)) ≡ 6
unfolding signed_06 decimal
length-signed_06 n h = length-pad_zeros 6 (decimal n) (length-digits_loop 5 (suc n) n (omega arith))
