-- ===== src/Core/Aggregate/Faithful.antt =====
-- The aggregate of a window (App.java, AggregatedFlow.java) where serialization loses nothing.
use kaf_katch.Prelude.{
  ◌^◌, ◌<◌, ◌≡◌, refl, sym, ap, ◌∙◌, subst, inr, Option, none, some, List, [], ◌∷◌, length, All,
  kept, All-kept, arith,
}
use kaf_katch.Prelude.Int.{ℤ}
use kaf_katch.Core.Flow.{Flow}
use kaf_katch.Core.Jackson.{Jackson}
use kaf_katch.Core.Parser.{read_json}
use kaf_katch.Core.Aggregate.{AggregatedFlow, Serdes, IsFaithful, Event, aggregate}
use kaf_katch.Core.Aggregate.Totals.{HasCounters}
use kaf_katch.Core.Aggregate.Window.{
  IsAggregate, parsed, added, regrouped, surviving, KeepsOrLoses, aggregate-surviving,
}

module _ {T D : Type 0} (J : Jackson D) (local_time : ℤ → T) (serdes : Serdes T D) where
  faithful-KeepsOrLoses : IsFaithful serdes → KeepsOrLoses J local_time serdes
  faithful-KeepsOrLoses whole = record {
    regroups = λ flow. inr (whole.regrouped flow);
    reloads = λ agg. inr (whole.reloaded agg);
  }

  added-kept :
      IsFaithful serdes
      → (o : Option (Flow T D)) (state : Option (AggregatedFlow T)) (fs gs : List (Flow T D))
      → IsAggregate state fs
      → fs ≡ gs
      → added J local_time serdes (regrouped J local_time serdes o) state fs ≡ kept o gs
  added-kept whole none state fs gs v e = e
  added-kept whole (some f) none fs gs v e = rw (whole.regrouped f) (ap (λ l. f ∷ l) (sym v ∙ e))
  added-kept whole (some f) (some agg) fs gs v e =
      rw (whole.regrouped f, whole.reloaded agg) (ap (λ l. f ∷ l) e)

  -- Where nothing is lost, all flows survive.
  surviving-parsed :
      IsFaithful serdes
      → (events : List (Event T)) → length events < 2 ^ 31
      → All HasCounters (parsed J local_time serdes events)
      → surviving J local_time serdes events ≡ parsed J local_time serdes events
  surviving-parsed whole [] n h = refl
  surviving-parsed whole (e ∷ events) n h =
      let o = read_json J local_time e.json e.received in
      let older = All-kept HasCounters o (parsed J local_time serdes events) h in
      added-kept whole o (aggregate J local_time serdes events)
        (surviving J local_time serdes events) (parsed J local_time serdes events)
        (aggregate-surviving J local_time serdes (faithful-KeepsOrLoses whole) events (omega arith)
          older)
        (surviving-parsed whole events (omega arith) older)

  pub aggregate-IsAggregate :
      IsFaithful serdes
      → (events : List (Event T)) → length events < 2 ^ 31
      → All HasCounters (parsed J local_time serdes events)
      → IsAggregate (aggregate J local_time serdes events) (parsed J local_time serdes events)
  aggregate-IsAggregate whole events n h =
      subst (IsAggregate (aggregate J local_time serdes events)) (surviving-parsed whole events n h)
        (aggregate-surviving J local_time serdes (faithful-KeepsOrLoses whole) events n h)
