-- ===== src/Core/Aggregate/Window.antt =====
-- The aggregate of a window (App.java, AggregatedFlow.java) and the flows that its messages hold.
use kaf_katch.Prelude.{
  ◌+◌, ◌^◌, ◌≤◌, ◌<◌, ◌≡◌, refl, ◌⊎◌, inl, inr, Option, none, some, List, [], ◌∷◌, length, All,
  kept, All-kept, arith,
}
use kaf_katch.Prelude.Int.{ℤ}
use kaf_katch.Core.Flow.{Flow}
use kaf_katch.Core.Jackson.{Jackson}
use kaf_katch.Core.Parser.{read_json}
use kaf_katch.Core.Aggregate.{
  AggregatedFlow, Serdes, Event, new_aggregate, add_flow, add_message, stored, add_stored,
  aggregate,
}
use kaf_katch.Core.Aggregate.Totals.{HasCounters, Totals, add_flow-Totals, new_aggregate-Totals}
use kaf_katch.Core.Aggregate.Keys.{Keys, keys_of, add_flow-Keys, new_aggregate-Keys}

-- The aggregate of some flows: there is one exactly if there is a flow, with the sums over the flows
-- and one unique flow for each key.
abbrev pub IsAggregate : {T D : Type 0} → Option (AggregatedFlow T) → List (Flow T D) → Type 0
IsAggregate none fs = fs ≡ []
IsAggregate (some agg) fs = (0 < length fs) × Totals agg fs × Keys agg (keys_of fs)

module _ {T D : Type 0} (J : Jackson D) (local_time : ℤ → T) (serdes : Serdes T D) where
  -- The flows that are read from some messages.
  abbrev pub parsed : List (Event T) → List (Flow T D)
  parsed [] = []
  parsed (e ∷ events) = kept (read_json J local_time e.json e.received) (parsed events)

  length-kept_le :
      (o : Option (Flow T D)) (fs : List (Flow T D)) → length (kept o fs) ≤ length fs + 1
  length-kept_le none fs = omega arith
  length-kept_le (some f) fs = omega arith

  pub length-parsed : (events : List (Event T)) → length (parsed events) ≤ length events
  length-parsed [] = omega arith
  length-parsed (e ∷ events) = omega (
    arith,
    length-parsed events,
    length-kept_le (read_json J local_time e.json e.received) (parsed events),
  )

  first_flow :
      (now : T) (f : Flow T D)
      → HasCounters f
      → IsAggregate (some (add_flow now f (new_aggregate now))) (f ∷ [])
  first_flow now f h = (
    omega arith,
    add_flow-Totals now (new_aggregate now) f [] (omega arith) (h, tt) (new_aggregate-Totals now),
    add_flow-Keys now (new_aggregate now) f [] (omega arith) (new_aggregate-Keys now),
  )

  kept-HasCounters :
      (o : Option (Flow T D)) (fs gs : List (Flow T D))
      → All HasCounters (kept o fs)
      → All HasCounters gs
      → All HasCounters (kept o gs)
  kept-HasCounters none fs gs h k = k
  kept-HasCounters (some f) fs gs h k = (h.0, k)

  -- What is left of the flows before the next one, by what comes back from the state store.
  abbrev held : Option (AggregatedFlow T) → List (Flow T D) → List (Flow T D)
  held none fs = []
  held (some agg) fs = fs

  abbrev pub added :
      Option (Flow T D) → Option (AggregatedFlow T) → List (Flow T D) → List (Flow T D)
  added none state fs = fs
  added (some f) state fs = f ∷ held (stored J local_time serdes state) fs

  abbrev pub regrouped : Option (Flow T D) → Option (Flow T D)
  regrouped none = none
  regrouped (some f) = serdes.regroup f

  -- The flows that are read from some messages, come back from the topic of groupBy, and after which
  -- the aggregate always came back from the state store.
  abbrev pub surviving : List (Event T) → List (Flow T D)
  surviving [] = []
  surviving (e ∷ events) =
      added (regrouped (read_json J local_time e.json e.received))
        (aggregate J local_time serdes events) (surviving events)

  -- Nothing but a loss happens on the way.
  pub record KeepsOrLoses : Type 0 where
    pub regroups :
        (flow : Flow T D) → (serdes.regroup flow ≡ none) ⊎ (serdes.regroup flow ≡ some flow)
    pub reloads :
        (agg : AggregatedFlow T) → (serdes.reload agg ≡ none) ⊎ (serdes.reload agg ≡ some agg)

  add_flow-IsAggregate :
      KeepsOrLoses
      → (now : T) (f : Flow T D) (state : Option (AggregatedFlow T)) (fs : List (Flow T D))
      → length fs + 1 < 2 ^ 31
      → All HasCounters (f ∷ fs)
      → IsAggregate state fs
      → IsAggregate
          (some (add_stored J local_time serdes now f (stored J local_time serdes state)))
          (f ∷ held (stored J local_time serdes state) fs)
  add_flow-IsAggregate way now f none fs n h v = first_flow now f h.0
  add_flow-IsAggregate way now f (some agg) fs n h v = elim (way.reloads agg) [
    | inl lost ↦ rw lost (first_flow now f h.0)
    | inr whole ↦ rw whole (
      omega arith,
      add_flow-Totals now agg f fs (omega arith) h v.1,
      add_flow-Keys now agg f fs n v.2,
    )
  ]

  add_message-IsAggregate :
      KeepsOrLoses
      → (now : T) (o : Option (Flow T D)) (state : Option (AggregatedFlow T)) (fs : List (Flow T D))
      → length fs + 1 < 2 ^ 31
      → All HasCounters (kept o fs)
      → IsAggregate state fs
      → IsAggregate (add_message J local_time serdes now o state) (added (regrouped o) state fs)
  add_message-IsAggregate way now none state fs n h v = v
  add_message-IsAggregate way now (some f) state fs n h v = elim (way.regroups f) [
    | inl lost ↦ rw lost v
    | inr whole ↦ rw whole (add_flow-IsAggregate way now f state fs n h v)
  ]

  All-held :
      (o : Option (AggregatedFlow T)) (fs : List (Flow T D))
      → All HasCounters fs
      → All HasCounters (held o fs)
  All-held none fs h = tt
  All-held (some agg) fs h = h

  length-held :
      (o : Option (AggregatedFlow T)) (fs : List (Flow T D)) → length (held o fs) ≤ length fs
  length-held none fs = omega arith
  length-held (some agg) fs = omega arith

  -- What holds of the flows that are read holds of those that survive.
  added-HasCounters :
      KeepsOrLoses
      → (o : Option (Flow T D)) (state : Option (AggregatedFlow T)) (fs : List (Flow T D))
      → All HasCounters (kept o fs)
      → All HasCounters (added (regrouped o) state fs)
  added-HasCounters way none state fs h = h
  added-HasCounters way (some f) state fs h = elim (way.regroups f) [
    | inl lost ↦ rw lost h.1
    | inr whole ↦ rw whole (h.0, All-held (stored J local_time serdes state) fs h.1)
  ]

  length-added :
      (o : Option (Flow T D)) (state : Option (AggregatedFlow T)) (fs : List (Flow T D))
      → length (added o state fs) ≤ length fs + 1
  length-added none state fs = omega arith
  length-added (some f) state fs = omega (arith, length-held (stored J local_time serdes state) fs)

  length-surviving : (events : List (Event T)) → length (surviving events) ≤ length events
  length-surviving [] = omega arith
  length-surviving (e ∷ events) = omega (
    arith,
    length-surviving events,
    length-added (regrouped (read_json J local_time e.json e.received))
        (aggregate J local_time serdes events) (surviving events),
  )

  surviving-HasCounters :
      KeepsOrLoses
      → (events : List (Event T)) → All HasCounters (parsed events)
      → All HasCounters (surviving events)
  surviving-HasCounters way [] h = tt
  surviving-HasCounters way (e ∷ events) h =
      let o = read_json J local_time e.json e.received in
      added-HasCounters way o (aggregate J local_time serdes events) (surviving events) (
        kept-HasCounters o (parsed events) (surviving events) h
          (surviving-HasCounters way events (All-kept HasCounters o (parsed events) h)))

  -- The aggregate of a window is exact for the flows that survive: over any messages, of which those
  -- that cannot be read are left out, as are flows that the topic of groupBy loses, and all flows
  -- before one at which the aggregate does not come back from the state store, the volumes by
  -- direction and the TCP flags are the sums over the flows, and the unique flows are the distinct
  -- keys of addFlow. This is for fewer than 2 ^ 31 messages with counters that fit an `int`, if what
  -- comes back is what was put in.
  pub aggregate-surviving :
      KeepsOrLoses
      → (events : List (Event T)) → length events < 2 ^ 31
      → All HasCounters (parsed events)
      → IsAggregate (aggregate J local_time serdes events) (surviving events)
  unfolding aggregate
  aggregate-surviving way [] n h = refl
  aggregate-surviving way (e ∷ events) n h =
      let o = read_json J local_time e.json e.received in
      let older = All-kept HasCounters o (parsed events) h in
      add_message-IsAggregate way e.now o (aggregate J local_time serdes events) (surviving events)
        (omega (arith, length-surviving events))
        (kept-HasCounters o (parsed events) (surviving events) h
          (surviving-HasCounters way events older))
        (aggregate-surviving way events (omega arith) older)
