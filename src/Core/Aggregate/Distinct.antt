-- ===== src/Core/Aggregate/Distinct.antt =====
-- How many distinct texts a list has, which is what the set of keys of an AggregatedFlow counts.
use kaf_katch.Prelude.{
  ℕ, suc, ◌≤◌, ◌≡◌, refl, sym, ap, ◌∙◌, Bool-cases, inl, inr, true, false, if◌then◌else◌, List, [],
  ◌∷◌, length, arith,
}
use kaf_katch.Prelude.Int.{pos}
use kaf_katch.Core.Flow.{Flow, text_eq, text_eq_iff}
use kaf_katch.Core.Aggregate.{AggregatedFlow, contains}
use kaf_katch.Core.Aggregate.Keys.{HasNoRepeats, Keys, keys_of}

unfoldable pub distinct_count : List (List ℕ) → ℕ
distinct_count [] = 0
distinct_count (k ∷ keys) =
    if contains keys k then distinct_count keys else suc (distinct_count keys)

remove : List ℕ → List (List ℕ) → List (List ℕ)
remove key [] = []
remove key (k ∷ keys) = if text_eq k key then remove key keys else k ∷ remove key keys

contains-remove :
    (key other : List ℕ) (keys : List (List ℕ))
    → contains (remove key keys) other ≡ (if text_eq key other then false else contains keys other)
unfolding remove
contains-remove key other [] = ground arith
contains-remove key other (k ∷ keys) = ground (
  arith,
  contains-remove key other keys,
  text_eq_iff k key,
  text_eq_iff key other,
  text_eq_iff k other,
)

distinct_count-remove :
    (key : List ℕ) (keys : List (List ℕ))
    → distinct_count keys ≡ (
        if contains keys key
        then suc (distinct_count (remove key keys))
        else distinct_count (remove key keys))
unfolding remove distinct_count
distinct_count-remove key [] = refl
distinct_count-remove key (k ∷ keys) = ground (
  arith,
  distinct_count-remove key keys,
  contains-remove key k keys,
  text_eq_iff k key,
  text_eq_iff key k,
)

distinct_count_mono :
    (xs ys : List (List ℕ))
    → ((key : List ℕ) → contains xs key ≡ true → contains ys key ≡ true)
    → distinct_count xs ≤ distinct_count ys
unfolding distinct_count
distinct_count_mono [] ys h = omega arith
distinct_count_mono (k ∷ keys) ys h = elim (Bool-cases (contains keys k)) [
  | inl old ↦
      let rest = distinct_count_mono keys ys (λ key e. h key (ground (arith, e))) in
      ground (arith, old, rest)
  | inr fresh ↦
      let here : contains ys k ≡ true = h k (ground (arith, text_eq_iff k k)) in
      let rest =
        distinct_count_mono keys (remove k ys)
          (λ key e. ground (arith, contains-remove k key ys, text_eq_iff k key, fresh, e, h key)) in
      ground (arith, fresh, here, rest, distinct_count-remove k ys)
]

-- The order and the repetitions do not matter.
pub distinct_count_same :
    (xs ys : List (List ℕ))
    → ((key : List ℕ) → contains xs key ≡ contains ys key)
    → distinct_count xs ≡ distinct_count ys
distinct_count_same xs ys h =
    let up = distinct_count_mono xs ys (λ key e. sym (h key) ∙ e) in
    let down = distinct_count_mono ys xs (λ key e. h key ∙ e) in omega arith

pub distinct_count-HasNoRepeats :
    (xs : List (List ℕ)) → HasNoRepeats xs → distinct_count xs ≡ length xs
unfolding distinct_count
distinct_count-HasNoRepeats [] h = refl
distinct_count-HasNoRepeats (k ∷ keys) h = rw h.0 (ap suc (distinct_count-HasNoRepeats keys h.1))

-- The count of unique flows.
pub Keys-count :
    {T D : Type 0} (agg : AggregatedFlow T) (fs : List (Flow T D))
    → Keys agg (keys_of fs)
    → (keys : List (List ℕ)) → ((key : List ℕ) → contains (keys_of fs) key ≡ contains keys key)
    → agg.unique_flow_count ≡ pos (distinct_count keys)
Keys-count agg fs v keys same =
    v.counted
    ∙ ap pos (
        sym (distinct_count-HasNoRepeats agg.flow_keys v.distinct)
        ∙ distinct_count_same agg.flow_keys keys (λ key. v.same key ∙ same key))
