-- ===== src/Notification/Rolling.antt =====
-- kafkatch-notification/src/main/java/br/ufes/edu/domain/RollingStats.java: the last values of a
-- series, with their running sum. A `long` sum wraps around.
use kaf_katch.Prelude.{
  ℕ, zero, suc, ◌+◌, ◌-◌, ◌≤◌, ◌≡◌, refl, sym, ap, ◌∙◌, Bool-cases, inl, inr, ltb, if◌then◌else◌,
  Option, none, some, List, [], ◌∷◌, ◌++◌, length, length-append, drop, arith,
}
use kaf_katch.Prelude.Int.{ℤ, pos, ◌+ℤ◌, ◌-ℤ◌, ltb_ℤ, int_laws}
use kaf_katch.Double.{Double}
use kaf_katch.Long.{to_long, to_long-add, to_long-sub}

-- The oldest value stands first.
pub record RollingStats : Type 0 where
  pub values : List ℤ
  pub max_size : ℤ
  pub sum : ℤ

unfoldable pub new_rolling : (max_size : ℤ) → RollingStats
new_rolling max_size = record { values = []; max_size = max_size; sum = pos 0 }

-- The loop of add: removeFirst throws at an empty list, which is none.
unfoldable pub trim : (max_size : ℤ) → List ℤ → (sum : ℤ) → Option (List ℤ × ℤ)
trim max_size [] sum = if ltb_ℤ max_size (pos 0) then none else some ([], sum)
trim max_size (v ∷ values) sum =
    let rest = trim max_size values (to_long (sum -ℤ v)) in
    if ltb_ℤ max_size (pos (suc (length values))) then rest else some (v ∷ values, sum)

abbrev pub with_values : RollingStats → Option (List ℤ × ℤ) → Option RollingStats
with_values stats none = none
with_values stats (some (values, sum)) = some (record stats { values = values; sum = sum })

unfoldable pub add : (value : ℤ) → RollingStats → Option RollingStats
unfolding trim
add value stats =
    with_values stats
      (trim stats.max_size (stats.values ++ value ∷ []) (to_long (stats.sum +ℤ value)))

module _ (F : Double) where
  unfoldable pub average : RollingStats → F.Carrier
  average stats =
      if ltb 0 (length stats.values)
      then F.div (F.of_int stats.sum) (F.of_int (pos (length stats.values)))
      else F.of_int (pos 0)

-- The last m of a series.
unfoldable pub last {ℓ} : {A : Type ℓ} → ℕ → List A → List A
last m xs = drop (length xs - m) xs

unfoldable pub total : List ℤ → ℤ
total [] = pos 0
total (v ∷ vs) = v +ℤ total vs

-- What should be kept of a series.
unfoldable pub rolled : (m : ℕ) → List ℤ → RollingStats
unfolding last
rolled m series = record {
  values = last m series;
  max_size = pos m;
  sum = to_long (total (last m series));
}

pub add_assoc_ℤ : (a b c : ℤ) → a +ℤ (b +ℤ c) ≡ (a +ℤ b) +ℤ c
add_assoc_ℤ a b c = omega int_laws

total-append : (xs : List ℤ) (v : ℤ) → total (xs ++ v ∷ []) ≡ total xs +ℤ v
unfolding total
total-append [] v = omega int_laws
total-append (x ∷ xs) v = ap (λ t. x +ℤ t) (total-append xs v) ∙ add_assoc_ℤ x (total xs) v

cancel : (v t : ℤ) → (v +ℤ t) -ℤ v ≡ t
cancel v t = omega int_laws

pub total-less : (v : ℤ) (vs : List ℤ) → total (v ∷ vs) -ℤ v ≡ total vs
unfolding total
total-less v vs = cancel v (total vs)

pub last_short {ℓ} : {A : Type ℓ} (m : ℕ) (xs : List A) → length xs ≤ m → last m xs ≡ xs
unfolding last
last_short m xs h = let none_left : length xs - m ≡ 0 = omega arith in ap (λ n. drop n xs) none_left

pub last_long {ℓ} :
    {A : Type ℓ} (m : ℕ) (v : A) (vs : List A) → m ≤ length vs → last m (v ∷ vs) ≡ last m vs
unfolding last
last_long m v vs h =
    let next : suc (length vs) - m ≡ suc (length vs - m) = omega arith in
    ap (λ n. drop n (v ∷ vs)) next

-- The loop of add keeps the last values, and the sum stays their sum.
trim_lem :
    (m : ℕ) (xs : List ℤ)
    → trim (pos m) xs (to_long (total xs)) ≡ some (last m xs, to_long (total (last m xs)))
unfolding trim
trim_lem m [] = rw (last_short {A = ℤ} m [] (omega arith)) (ground arith)
trim_lem m (v ∷ vs) =
    let less : to_long (to_long (total (v ∷ vs)) -ℤ v) ≡ to_long (total vs) =
      to_long-sub (total (v ∷ vs)) v ∙ ap to_long (total-less v vs) in
    elim (Bool-cases (ltb m (suc (length vs)))) [
      | inl long ↦
          let next = last_long m v vs (ground arith) in
          ground (arith, less, next, ap (trim (pos m) vs) less, trim_lem m vs)
      | inr short ↦ ground (arith, last_short m (v ∷ vs))
    ]

pub drop-append {ℓ} :
    {A : Type ℓ} (j k : ℕ) (xs ys : List A)
    → j ≤ length xs
    → drop k (drop j xs ++ ys) ≡ drop (k + j) (xs ++ ys)
drop-append zero k xs ys h = ap (λ n. drop n (xs ++ ys)) (omega arith)
drop-append (suc j) k [] ys h = absurd (omega arith)
drop-append (suc j) k (x ∷ xs) ys h =
    let up : suc (k + j) ≡ k + suc j = omega arith in
    drop-append j k xs ys (omega arith) ∙ ap (λ n. drop n (x ∷ (xs ++ ys))) up

pub length-drop {ℓ} : {A : Type ℓ} (j : ℕ) (xs : List A) → length (drop j xs) ≡ length xs - j
length-drop zero xs = omega arith
length-drop (suc j) [] = omega arith
length-drop (suc j) (x ∷ xs) = omega (arith, length-drop j xs)

pub last-last {ℓ} :
    {A : Type ℓ} (m : ℕ) (xs ys : List A) → last m (last m xs ++ ys) ≡ last m (xs ++ ys)
unfolding last
last-last m xs ys =
    let j = length xs - m in
    let kept = drop j xs in
    let count : length kept ≡ length xs - j = length-drop j xs in
    let now : length (kept ++ ys) ≡ length kept + length ys = length-append kept ys in
    let all : length (xs ++ ys) ≡ length xs + length ys = length-append xs ys in
    let both : length (kept ++ ys) - m + j ≡ length (xs ++ ys) - m = omega arith in
    drop-append j (length (kept ++ ys) - m) xs ys (omega arith) ∙ ap (λ n. drop n (xs ++ ys)) both

-- After each value, the stats hold the last m values of the series and their sum: if they did
-- before, add succeeds, and they do with the value at the end.
pub add-rolled :
    (m : ℕ) (series : List ℤ) (value : ℤ)
    → add value (rolled m series) ≡ some (rolled m (series ++ value ∷ []))
unfolding add rolled
add-rolled m series value =
    let kept = last m series in
    let sum : to_long (to_long (total kept) +ℤ value) ≡ to_long (total (kept ++ value ∷ [])) =
      to_long-add (total kept) value ∙ ap to_long (sym (total-append kept value)) in
    let trimmed = trim_lem m (kept ++ value ∷ []) in
    let same = last-last m series (value ∷ []) in rw (sum, trimmed, same)

pub length-last {ℓ} : {A : Type ℓ} (m : ℕ) (xs : List A) → length (last m xs) ≤ m
unfolding last
length-last m xs = omega (arith, length-drop (length xs - m) xs)

pub length-rolled : (m : ℕ) (series : List ℤ) → length (rolled m series).values ≤ m
unfolding rolled last
length-rolled m series = omega (arith, length-drop (length series - m) series)

pub rolled-nil : (m : ℕ) → rolled m [] ≡ new_rolling (pos m)
unfolding rolled new_rolling
rolled-nil m = rw (last_short {A = ℤ} m [] (omega arith)) (unfold total in unfold to_long in refl)
