-- ===== src/Notification/Notifier/Sample.antt =====
-- The sums and the records of a Notifier over the aggregates that it was given.
use kaf_katch.Prelude.{
  ℕ, suc, ◌+◌, ◌≤◌, ◌≡◌, refl, sym, ap, ◌∙◌, ltb, Bool, Bool-cases, inl, inr, true, false, ◌||◌,
  not, Option, some, List, [], ◌∷◌, ◌++◌, length, length-append, map, arith,
}
use kaf_katch.Prelude.Int.{ℤ, pos, negsuc, ◌+ℤ◌, ◌-ℤ◌, ltb_ℤ, int_laws, eq_of_parts}
use kaf_katch.Long.{to_int, to_long, to_long-add, to_int-add, to_long-take, to_int-take}
use kaf_katch.Core.Jackson.{map_option}
use kaf_katch.Core.Aggregate.{AggregatedFlow}
use kaf_katch.Notification.Rolling.{
  last, total, add_assoc_ℤ, total-less, last_short, last_long, last-last, length-last,
}
use kaf_katch.Notification.Notifier.{
  Bounds, Notifier, new_notifier, raised, largest, add_newest, holds_record, removed, present,
  drop_oldest, add_aggregate_sample,
}

raised_swap : (best x y : ℤ) → raised (raised best x) y ≡ raised (raised best y) x
raised_swap best x y = eq_of_parts _ _ (ground arith)

raised_keeps : (best value : ℤ) → ltb_ℤ value (raised best value) ≡ true → raised best value ≡ best
raised_keeps best value h = elim (Bool-cases (ltb_ℤ best value)) [
  | inl up ↦ absurd (ground (arith, up, h))
  | inr same ↦ rw same refl
]

none_held :
    (p q r : Bool) → (not p || not q || not r) ≡ false → (p ≡ true) × (q ≡ true) × (r ≡ true)
none_held true true true h = (refl, refl, refl)
none_held true true false h = ground (arith, h)
none_held true false r h = ground (arith, h)
none_held false q r h = ground (arith, h)

module _ {T : Type 0} where
  abbrev pub all_of : List (AggregatedFlow T) → List (Option (AggregatedFlow T))
  all_of [] = []
  all_of (a ∷ aggs) = some a ∷ all_of aggs

  present-all_of : (aggs : List (AggregatedFlow T)) → present (all_of aggs) ≡ some aggs
  present-all_of [] = refl
  present-all_of (a ∷ aggs) = ap (map_option (λ l. a ∷ l)) (present-all_of aggs)

  pub all_of-append :
      (xs : List (AggregatedFlow T)) (a : AggregatedFlow T)
      → all_of (xs ++ a ∷ []) ≡ all_of xs ++ some a ∷ []
  all_of-append [] a = refl
  all_of-append (x ∷ xs) a = ap (λ l. some x ∷ l) (all_of-append xs a)

  pub length-all_of : (xs : List (AggregatedFlow T)) → length (all_of xs) ≡ length xs
  length-all_of [] = refl
  length-all_of (x ∷ xs) = ap suc (length-all_of xs)

  -- What a Notifier should hold of a sample.
  abbrev pub holding : (m : ℕ) → Bounds → List (AggregatedFlow T) → Notifier T
  holding m bounds sample = record {
    aggregate_sample = all_of sample;
    sample_max_size = pos m;
    bytes_inbound_sum = to_long (total (map (λ a. a.bytes_inbound) sample));
    bytes_inbound_record = largest (λ a. a.bytes_inbound) (negsuc 0) sample;
    bytes_outbound_sum = to_long (total (map (λ a. a.bytes_outbound) sample));
    bytes_outbound_record = largest (λ a. a.bytes_outbound) (negsuc 0) sample;
    unique_flow_sum = to_int (total (map (λ a. a.unique_flow_count) sample));
    unique_flow_record = largest (λ a. a.unique_flow_count) (negsuc 0) sample;
    bounds = bounds;
  }

  largest-append :
      (value : AggregatedFlow T → ℤ) (best : ℤ) (xs : List (AggregatedFlow T))
      (a : AggregatedFlow T)
      → largest value best (xs ++ a ∷ []) ≡ raised (largest value best xs) (value a)
  unfolding largest
  largest-append value best [] a = refl
  largest-append value best (x ∷ xs) a = largest-append value (raised best (value x)) xs a

  largest-raised :
      (value : AggregatedFlow T → ℤ) (best x : ℤ) (xs : List (AggregatedFlow T))
      → largest value (raised best x) xs ≡ raised (largest value best xs) x
  unfolding largest
  largest-raised value best x [] = refl
  largest-raised value best x (a ∷ xs) =
      ap (λ b. largest value b xs) (raised_swap best x (value a))
      ∙ largest-raised value (raised best (value a)) x xs

  -- An aggregate below the record is not needed for it.
  largest-rest :
      (value : AggregatedFlow T → ℤ) (v : AggregatedFlow T) (vs : List (AggregatedFlow T))
      → ltb_ℤ (value v) (largest value (negsuc 0) (v ∷ vs)) ≡ true
      → largest value (negsuc 0) (v ∷ vs) ≡ largest value (negsuc 0) vs
  largest-rest value v vs h =
      let e : largest value (negsuc 0) (v ∷ vs) ≡ raised (largest value (negsuc 0) vs) (value v) =
        unfold largest in largest-raised value (negsuc 0) (value v) vs in
      e ∙ raised_keeps (largest value (negsuc 0) vs) (value v) (ap (ltb_ℤ (value v)) (sym e) ∙ h)

  total-append_map :
      (value : AggregatedFlow T → ℤ) (xs : List (AggregatedFlow T)) (a : AggregatedFlow T)
      → total (map value (xs ++ a ∷ [])) ≡ total (map value xs) +ℤ value a
  unfolding total
  total-append_map value [] a = omega int_laws
  total-append_map value (x ∷ xs) a =
      ap (λ t. value x +ℤ t) (total-append_map value xs a)
      ∙ add_assoc_ℤ (value x) (total (map value xs)) (value a)

  long_newest :
      (value : AggregatedFlow T → ℤ) (xs : List (AggregatedFlow T)) (a : AggregatedFlow T)
      → to_long (to_long (total (map value xs)) +ℤ value a)
        ≡ to_long (total (map value (xs ++ a ∷ [])))
  long_newest value xs a =
      to_long-add (total (map value xs)) (value a) ∙ ap to_long (sym (total-append_map value xs a))

  int_newest :
      (value : AggregatedFlow T → ℤ) (xs : List (AggregatedFlow T)) (a : AggregatedFlow T)
      → to_int (to_int (total (map value xs)) +ℤ value a)
        ≡ to_int (total (map value (xs ++ a ∷ [])))
  int_newest value xs a =
      to_int-add (total (map value xs)) (value a) ∙ ap to_int (sym (total-append_map value xs a))

  long_oldest :
      (value : AggregatedFlow T → ℤ) (v : AggregatedFlow T) (vs : List (AggregatedFlow T))
      → to_long (to_long (total (map value (v ∷ vs))) +ℤ to_long (pos 0 -ℤ value v))
        ≡ to_long (total (map value vs))
  long_oldest value v vs =
      to_long-take (total (map value (v ∷ vs))) (value v)
      ∙ ap to_long (total-less (value v) (map value vs))

  int_oldest :
      (value : AggregatedFlow T → ℤ) (v : AggregatedFlow T) (vs : List (AggregatedFlow T))
      → to_int (to_int (total (map value (v ∷ vs))) +ℤ to_int (pos 0 -ℤ value v))
        ≡ to_int (total (map value vs))
  int_oldest value v vs =
      to_int-take (total (map value (v ∷ vs))) (value v)
      ∙ ap to_int (total-less (value v) (map value vs))

  pub add_newest-holding :
      (m : ℕ) (bounds : Bounds) (xs : List (AggregatedFlow T)) (a : AggregatedFlow T)
      → add_newest a (holding m bounds xs) ≡ holding m bounds (xs ++ a ∷ [])
  add_newest-holding m bounds xs a = rw (
    all_of-append xs a,
    long_newest (λ b. b.bytes_inbound) xs a,
    long_newest (λ b. b.bytes_outbound) xs a,
    int_newest (λ b. b.unique_flow_count) xs a,
    largest-append (λ b. b.bytes_inbound) (negsuc 0) xs a,
    largest-append (λ b. b.bytes_outbound) (negsuc 0) xs a,
    largest-append (λ b. b.unique_flow_count) (negsuc 0) xs a,
  )

  -- The records after the oldest aggregate, looked up again or not.
  removed-holding :
      (m : ℕ) (bounds : Bounds) (v : AggregatedFlow T) (vs : List (AggregatedFlow T))
      → removed (some v) (record (holding m bounds (v ∷ vs)) { aggregate_sample = all_of vs })
        ≡ (holding m bounds vs, true)
  removed-holding m bounds v vs = elim (Bool-cases (holds_record v (holding m bounds (v ∷ vs)))) [
    | inl again ↦ rw (
      again,
      present-all_of vs,
      long_oldest (λ b. b.bytes_inbound) v vs,
      long_oldest (λ b. b.bytes_outbound) v vs,
      int_oldest (λ b. b.unique_flow_count) v vs,
    )
    | inr still ↦
        let (below_in, below_out, below_flows) = none_held _ _ _ still in
        rw (
          still,
          long_oldest (λ b. b.bytes_inbound) v vs,
          long_oldest (λ b. b.bytes_outbound) v vs,
          int_oldest (λ b. b.unique_flow_count) v vs,
          largest-rest (λ b. b.bytes_inbound) v vs below_in,
          largest-rest (λ b. b.bytes_outbound) v vs below_out,
          largest-rest (λ b. b.unique_flow_count) v vs below_flows,
        )
  ]

  drop_oldest-holding :
      (m : ℕ) (bounds : Bounds) (xs : List (AggregatedFlow T))
      → length xs ≤ m + 1
      → drop_oldest (all_of xs) (holding m bounds xs) ≡ (holding m bounds (last m xs), true)
  unfolding drop_oldest
  drop_oldest-holding m bounds [] h =
      ap (λ l. (holding m bounds l, true)) (sym (last_short m [] (omega arith)))
  drop_oldest-holding m bounds (v ∷ vs) h = elim (Bool-cases (ltb m (suc (length vs)))) [
    | inl long ↦ ground (
      arith,
      length-all_of vs,
      removed-holding m bounds v vs,
      last_long m v vs (ground arith),
      last_short m vs (ground arith),
    )
    | inr short ↦ ground (arith, length-all_of vs, last_short m (v ∷ vs) (ground arith))
  ]

  pub add_aggregate_sample-holding :
      (m : ℕ) (bounds : Bounds) (series : List (AggregatedFlow T)) (newest : AggregatedFlow T)
      → add_aggregate_sample (some newest) (holding m bounds (last m series))
        ≡ (holding m bounds (last m (series ++ newest ∷ [])), true)
  unfolding add_aggregate_sample
  add_aggregate_sample-holding m bounds series newest =
      let kept = last m series in
      let count : length (kept ++ newest ∷ []) ≡ length kept + 1 =
        length-append kept (newest ∷ []) in
      let grown = add_newest-holding m bounds kept newest in
      ap (λ n. drop_oldest n.aggregate_sample n) grown
      ∙ drop_oldest-holding m bounds (kept ++ newest ∷ []) (omega (arith, length-last m series))
      ∙ ap (λ l. (holding m bounds l, true)) (last-last m series (newest ∷ []))

  pub new_notifier-holding :
      (m : ℕ) (bounds : Bounds) → new_notifier (pos m) bounds ≡ holding m bounds (last m [])
  unfolding new_notifier
  new_notifier-holding m bounds =
      rw (last_short {A = AggregatedFlow T} m [] (omega arith))
        (unfold largest in unfold total in unfold to_long in unfold to_int in refl)
