-- ===== src/Core/FlowKey.antt =====
-- The two keys of a flow: `flow_key`, which the constructor of Flow makes, and the key by which
-- addFlow counts unique flows.
pub mod Collision
use kaf_katch.Prelude.{
  All-mono, ℕ, zero, suc, ◌+◌, ◌*◌, ◌/◌, ◌%◌, ◌^◌, ◌≤◌, ◌<◌, ◌≡◌, ◌≢◌, ◌⊎◌, inl, inr, refl, sym, ap,
  ◌∙◌, ltb, true, false, Bool-cases, List, [], ◌∷◌, ◌++◌, All, All-append, arith,
}
use mathlib.Core.List.{append_assoc}
use kaf_katch.Prelude.Int.{pos, ◌+ℤ◌}
use kaf_katch.Words.{ntohs, ntohs_involutive}
use kaf_katch.Text.{
  codes, join, decimal, digits_loop, digits_value, digits_value-decimal, inet_ntop, signed,
}
use kaf_katch.Sniffer.Stats.{FlowKey}
use kaf_katch.Sniffer.Flow.{ipproto_tcp, ipproto_udp}
use kaf_katch.Sniffer.Flow.Types.{KeyFits}
use kaf_katch.Core.Flow.{FlowProtocol, tcp, udp, protocol_name, make_key, text_eq_iff}
use kaf_katch.Core.Parser.Message.{protocol_of}
use kaf_katch.Long.{to_int}
use kaf_katch.Core.Flow as CoreFlow
use kaf_katch.Core.Aggregate.{
  AggregatedFlow, contains, new_aggregate, unique_key, add_volume, add_flags, add_flow,
}

abbrev Lacks : ℕ → List ℕ → Type 0
Lacks c = All (λ x. x ≢ c)

-- What stands before the first separator, and what behind it.
split_lem :
    (c : ℕ) (xs ys r s : List ℕ)
    → Lacks c xs
    → Lacks c ys
    → xs ++ c ∷ r ≡ ys ++ c ∷ s
    → (xs ≡ ys) × (r ≡ s)
split_lem c [] [] r s hx hy e = ground arith
split_lem c [] (y ∷ ys) r s hx hy e = ground (arith, hy.0)
split_lem c (x ∷ xs) [] r s hx hy e = ground (arith, hx.0)
split_lem c (x ∷ xs) (y ∷ ys) r s hx hy e = ground (arith, split_lem c xs ys r s hx.1 hy.1)

-- The characters of an address or a number: the full stop, 46, and the digits.
abbrev IsPlain : ℕ → Type 0
IsPlain c = (46 ≤ c) × (c ≤ 57)

abbrev IsDigit : ℕ → Type 0
IsDigit c = (48 ≤ c) × (c ≤ 57)

digits_loop-IsDigit : (fuel n : ℕ) → All IsDigit (digits_loop fuel n)
unfolding digits_loop
digits_loop-IsDigit zero n = tt
digits_loop-IsDigit (suc fuel) n = elim (Bool-cases (ltb n 10)) [
  | inl small ↦ rw small ((ground arith, ground arith), tt)
  | inr large ↦ rw large (
      All-append IsDigit (digits_loop fuel (n / 10)) ((48 + n % 10) ∷ [])
        (digits_loop-IsDigit fuel (n / 10)) ((omega arith, omega arith), tt))
]

decimal-IsDigit : (n : ℕ) → All IsDigit (decimal n)
unfolding decimal
decimal-IsDigit n = digits_loop-IsDigit (suc n) n

decimal-Lacks : (c n : ℕ) → (c < 48) ⊎ (57 < c) → Lacks c (decimal n)
decimal-Lacks c n h = All-mono (λ x d. ground arith) (decimal n) (decimal-IsDigit n)

decimal-injective : (m n : ℕ) → decimal m ≡ decimal n → m ≡ n
decimal-injective m n e =
    sym (digits_value-decimal m) ∙ ap (digits_value 0) e ∙ digits_value-decimal n

dotted-IsPlain : (xs ys : List ℕ) → All IsPlain xs → All IsPlain ys → All IsPlain (xs ++ 46 ∷ ys)
dotted-IsPlain xs ys hx hy = All-append IsPlain xs (46 ∷ ys) hx ((omega arith, omega arith), hy)

inet_ntop-IsPlain : (a : ℕ) → All IsPlain (inet_ntop a)
unfolding inet_ntop
inet_ntop-IsPlain a =
    let octet = λ (n : ℕ).
      All-mono {P = IsDigit} {Q = IsPlain} (λ c d. (omega arith, omega arith)) (decimal n)
        (decimal-IsDigit n) in
    dotted-IsPlain _ _ (octet _)
      (dotted-IsPlain _ _ (octet _) (dotted-IsPlain _ _ (octet _) (octet _)))

inet_ntop-injective : (a b : ℕ) → a < 2 ^ 32 → b < 2 ^ 32 → inet_ntop a ≡ inet_ntop b → a ≡ b
unfolding inet_ntop
inet_ntop-injective a b ha hb e =
    let full_stop = λ (n : ℕ). decimal-Lacks 46 n (inl (omega arith)) in
    let (e0, r0) = split_lem 46 _ _ _ _ (full_stop _) (full_stop _) e in
    let (e1, r1) = split_lem 46 _ _ _ _ (full_stop _) (full_stop _) r0 in
    let (e2, e3) = split_lem 46 _ _ _ _ (full_stop _) (full_stop _) r1 in
    omega (
      arith,
      decimal-injective (a % 256) (b % 256) e0,
      decimal-injective (a / 256 % 256) (b / 256 % 256) e1,
      decimal-injective (a / 65536 % 256) (b / 65536 % 256) e2,
      decimal-injective (a / 16777216 % 256) (b / 16777216 % 256) e3,
    )

names_apart : codes "TCP" ≢ codes "UDP"
names_apart e = let same : false ≡ true = (text_eq_iff (codes "TCP") (codes "UDP")).1 e in cc

protocol_name-injective :
    (p q : FlowProtocol) → protocol_name p ++ [] ≡ protocol_name q ++ [] → p ≡ q
unfolding protocol_name
protocol_name-injective tcp tcp e = refl
protocol_name-injective tcp udp e = absurd (names_apart e)
protocol_name-injective udp tcp e = absurd (names_apart (sym e))
protocol_name-injective udp udp e = refl

-- The `flow_key` of the flow that the service reads for a key of the sniffer.
abbrev pub flow_key_of : FlowKey → List ℕ
flow_key_of k =
    make_key (inet_ntop k.src_ip) (pos (ntohs k.src_port)) (inet_ntop k.dst_ip)
      (pos (ntohs k.dst_port)) (protocol_of k.protocol)

ntohs-injective : (x y : ℕ) → x < 2 ^ 16 → y < 2 ^ 16 → ntohs x ≡ ntohs y → x ≡ y
ntohs-injective x y hx hy e = sym (ntohs_involutive x hx) ∙ ap ntohs e ∙ ntohs_involutive y hy

protocol_of-injective :
    (p q : ℕ)
    → (p ≡ ipproto_tcp) ⊎ (p ≡ ipproto_udp)
    → (q ≡ ipproto_tcp) ⊎ (q ≡ ipproto_udp)
    → protocol_of p ≡ protocol_of q
    → p ≡ q
protocol_of-injective p q hp hq e = ground arith

-- `flow_key` tells the flows of the sniffer apart: two keys of parsed packets with the same text are
-- the same key.
pub flow_key_of-injective :
    (j k : FlowKey) → KeyFits j → KeyFits k → flow_key_of j ≡ flow_key_of k → j ≡ k
unfolding make_key join signed
flow_key_of-injective j k hj hk e =
    let colon = λ (a : ℕ).
      All-mono {P = IsPlain} {Q = λ x. x ≢ 58} (λ c d. ground arith) (inet_ntop a)
        (inet_ntop-IsPlain a) in
    let dash = λ (n : ℕ). decimal-Lacks 45 n (inl (omega arith)) in
    let (src, r0) = split_lem 58 _ _ _ _ (colon _) (colon _) e in
    let (src_port, r1) = split_lem 45 _ _ _ _ (dash _) (dash _) r0 in
    let (dst, r2) = split_lem 58 _ _ _ _ (colon _) (colon _) r1 in
    let (dst_port, r3) = split_lem 45 _ _ _ _ (dash _) (dash _) r2 in
    let e0 = inet_ntop-injective j.src_ip k.src_ip hj.src_ip hk.src_ip src in
    let e1 = inet_ntop-injective j.dst_ip k.dst_ip hj.dst_ip hk.dst_ip dst in
    let e2 =
      ntohs-injective j.src_port k.src_port hj.src_port hk.src_port
        (decimal-injective _ _ src_port) in
    let e3 =
      ntohs-injective j.dst_port k.dst_port hj.dst_port hk.dst_port
        (decimal-injective _ _ dst_port) in
    let e4 =
      protocol_of-injective j.protocol k.protocol hj.known hk.known
        (protocol_name-injective _ _ r3) in
    ground arith
