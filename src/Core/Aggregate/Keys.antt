-- ===== src/Core/Aggregate/Keys.antt =====
-- The unique flows of an AggregatedFlow (AggregatedFlow.java) and the keys of its flows.
use kaf_katch.Prelude.{
  ℕ, suc, ◌+◌, ◌^◌, ◌≤◌, ◌<◌, ◌≡◌, refl, Bool-cases, inl, inr, false, List, [], ◌∷◌, length, arith,
}
use kaf_katch.Prelude.Int.{pos, ◌+ℤ◌}
use kaf_katch.Long.{to_int, to_int_exact}
use kaf_katch.Core.Flow.{Flow, FlowDirection, inbound, outbound, lateral, unknown, text_eq_iff}
use kaf_katch.Core.Aggregate.{
  AggregatedFlow, contains, new_aggregate, unique_key, add_volume, add_flags, add_key, add_flow,
}

abbrev pub HasNoRepeats : List (List ℕ) → Type 0
HasNoRepeats [] = Unit
HasNoRepeats (k ∷ keys) = (contains keys k ≡ false) × HasNoRepeats keys

-- The set of keys holds those of the flows, and the count is its size.
pub record Keys {T : Type 0} (agg : AggregatedFlow T) (keys : List (List ℕ)) : Type 0 where
  pub counted : agg.unique_flow_count ≡ pos (length agg.flow_keys)
  pub distinct : HasNoRepeats agg.flow_keys
  pub few : length agg.flow_keys ≤ length keys
  pub same : (key : List ℕ) → contains agg.flow_keys key ≡ contains keys key

count_up : (n : ℕ) → n + 1 < 2 ^ 31 → to_int (pos n +ℤ pos 1) ≡ pos (suc n)
unfolding ◌+ℤ◌
count_up n h = ground (arith, to_int_exact (n + 1) h)

add_key-Keys :
    {T : Type 0} (key : List ℕ) (agg : AggregatedFlow T) (keys : List (List ℕ))
    → length keys + 1 < 2 ^ 31
    → Keys agg keys
    → Keys (add_key key agg) (key ∷ keys)
add_key-Keys key agg keys n v = elim (Bool-cases (contains agg.flow_keys key)) [
  | inl old ↦ record {
    counted = ground (arith, v.counted);
    distinct = ground (arith, v.distinct);
    few = ground (arith, v.few);
    same = λ j. ground (arith, old, v.same j, v.same key, text_eq_iff key j);
  }
  | inr fresh ↦ record {
    counted = ground (arith, v.counted, v.few, count_up (length agg.flow_keys));
    distinct = ground (arith, v.distinct);
    few = ground (arith, v.few);
    same = λ j. ground (arith, fresh, v.same j);
  }
]

pub new_aggregate-Keys : {T : Type 0} (start : T) → Keys (new_aggregate start) []
unfolding new_aggregate
new_aggregate-Keys start = record {
  counted = refl;
  distinct = tt;
  few = omega arith;
  same = λ key. refl;
}

module _ {T D : Type 0} where
  abbrev pub keys_of : List (Flow T D) → List (List ℕ)
  keys_of [] = []
  keys_of (f ∷ fs) = unique_key f ∷ keys_of fs

  pub length-keys_of : (fs : List (Flow T D)) → length (keys_of fs) ≡ length fs
  length-keys_of [] = refl
  length-keys_of (f ∷ fs) = omega (arith, length-keys_of fs)

  add_volume-Keys :
      (d : FlowDirection) (f : Flow T D) (agg : AggregatedFlow T) (keys : List (List ℕ))
      → Keys agg keys
      → Keys (add_flags f (add_volume d f agg)) keys
  add_volume-Keys inbound f agg keys v = record {
    counted = v.counted;
    distinct = v.distinct;
    few = v.few;
    same = v.same;
  }
  add_volume-Keys outbound f agg keys v = record {
    counted = v.counted;
    distinct = v.distinct;
    few = v.few;
    same = v.same;
  }
  add_volume-Keys lateral f agg keys v = record {
    counted = v.counted;
    distinct = v.distinct;
    few = v.few;
    same = v.same;
  }
  add_volume-Keys unknown f agg keys v = record {
    counted = v.counted;
    distinct = v.distinct;
    few = v.few;
    same = v.same;
  }

  pub add_flow-Keys :
      (now : T) (agg : AggregatedFlow T) (f : Flow T D) (fs : List (Flow T D))
      → length fs + 1 < 2 ^ 31
      → Keys agg (keys_of fs)
      → Keys (add_flow now f agg) (keys_of (f ∷ fs))
  unfolding add_flow
  add_flow-Keys now agg f fs n v =
      let w =
        add_key-Keys (unique_key f) (add_flags f (add_volume f.dir f agg)) (keys_of fs)
          (omega (arith, length-keys_of fs)) (add_volume-Keys f.dir f agg (keys_of fs) v) in
      record { counted = w.counted; distinct = w.distinct; few = w.few; same = w.same }
