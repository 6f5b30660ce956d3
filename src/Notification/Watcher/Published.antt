-- ===== src/Notification/Watcher/Published.antt =====
-- The aggregation and the detector together: the warnings that OutputWatcher makes of what App of
-- kafkatch-core publishes.
use kaf_katch.Prelude.{
  ℕ, ◌≡◌, refl, ap₂, Option, none, some, List, [], ◌∷◌, ◌++◌, All, kept, All-kept,
}
use kaf_katch.Prelude.Int.{ℤ, pos}
use kaf_katch.Double.{Double}
use kaf_katch.Core.Jackson.{Jackson}
use kaf_katch.Core.Aggregate.{AggregatedFlow, Serdes, Event, aggregate}
use kaf_katch.Core.Publish.{Message, global_key, closed_window, publish}
use kaf_katch.Notification.Detector.{Warning, Comparisons, Limits, Stores, transform}
use kaf_katch.Notification.Detector.History.{
  Metric, inbound, outbound, flows, value_of, store_of, feed, expected, transform-warnings,
}
use kaf_katch.Notification.Watcher.{watch}

-- An aggregate is written, and read back with the same metrics; other fields may be left out.
pub record RoundTrip {T : Type 0} (to_json_string : AggregatedFlow T → Option (List ℕ))
    (from_json_string : List ℕ → Option (AggregatedFlow T)) (agg : AggregatedFlow T) : Type 0 where
  pub json : List ℕ
  pub back : AggregatedFlow T
  pub writes : to_json_string agg ≡ some json
  pub reads : from_json_string json ≡ some back
  pub same : (metric : Metric) → value_of metric back ≡ value_of metric agg

module _ {T D : Type 0} (J : Jackson D) (local_time : ℤ → T) (serdes : Serdes T D) where
  -- The aggregates of some windows, of which those without a flow have none.
  abbrev pub aggregates : List (List (Event T)) → List (AggregatedFlow T)
  aggregates [] = []
  aggregates (events ∷ windows) = kept (aggregate J local_time serdes events) (aggregates windows)

module _ (F : Double) (C : Comparisons F) (limits : Limits F C) (m : ℕ)
    (size : limits.window_size ≡ pos m) {T : Type 0} where
  -- What should be said of an aggregate after those before it, the newest of which stands first.
  abbrev pub verdict : Stores F C → List (AggregatedFlow T) → AggregatedFlow T → List Warning
  verdict stores before agg =
      expected F C limits m size inbound stores.inbound.broken before agg
      ++ (expected F C limits m size outbound stores.outbound.broken before agg
          ++ expected F C limits m size flows stores.flows.broken before agg)

  -- And of a series of them, in their order.
  unfoldable pub verdicts :
      Stores F C → (before : List (AggregatedFlow T)) → List (AggregatedFlow T) → List Warning
  verdicts stores before [] = []
  verdicts stores before (agg ∷ aggs) =
      verdict stores before agg ++ verdicts stores (agg ∷ before) aggs

  -- The detector looks at the metrics alone.
  transform-same :
      (key : List ℕ) (back agg : AggregatedFlow T) (stores : Stores F C)
      → ((metric : Metric) → value_of metric back ≡ value_of metric agg)
      → transform F C limits (some key) (some back) stores
        ≡ transform F C limits (some key) (some agg) stores
  unfolding transform
  transform-same key back agg stores same = rw (same inbound, same outbound, same flows)

  module _ {D : Type 0} (J : Jackson D) (local_time : ℤ → T) (serdes : Serdes T D)
      (to_json_string : AggregatedFlow T → Option (List ℕ))
      (from_json_string : List ℕ → Option (AggregatedFlow T)) (stores : Stores F C)
      (fresh : (metric : Metric)
        → (store_of F C limits m size metric stores).rows global_key ≡ none) where
    abbrev after : List (AggregatedFlow T) → Stores F C
    after before = feed F C limits m size global_key before stores

    -- One window more in front of some messages.
    watch-closed_window :
        (before : List (AggregatedFlow T)) (o : Option (AggregatedFlow T)) (messages : List Message)
        (aggs : List (AggregatedFlow T))
        → All (RoundTrip to_json_string from_json_string) (kept o aggs)
        → ((older : List (AggregatedFlow T))
            → (watch F C limits from_json_string messages (after older)).0
              ≡ verdicts stores older aggs)
        → (watch F C limits from_json_string
            (closed_window J local_time serdes to_json_string o ++ messages)
            (after before)).0
          ≡ verdicts stores before (kept o aggs)
    unfolding watch verdicts feed
    watch-closed_window before none messages aggs h ih = ih before
    watch-closed_window before (some agg) messages aggs h ih =
        let now = h.0 in
        rw (now.writes, now.reads, transform-same global_key now.back agg (after before) now.same)
          (ap₂ (λ xs ys. xs ++ ys)
            (transform-warnings F C limits m size global_key before agg stores fresh)
            (ih (agg ∷ before)))

    watch-after :
        (before : List (AggregatedFlow T)) (windows : List (List (Event T)))
        → All (RoundTrip to_json_string from_json_string) (aggregates J local_time serdes windows)
        → (watch F C limits from_json_string
            (publish J local_time serdes to_json_string windows)
            (after before)).0
          ≡ verdicts stores before (aggregates J local_time serdes windows)
    unfolding publish
    watch-after before [] h = unfold watch in unfold verdicts in refl
    watch-after before (events ∷ windows) h =
        watch-closed_window before (aggregate J local_time serdes events)
          (publish J local_time serdes to_json_string windows)
          (aggregates J local_time serdes windows) h
          (λ older.
            watch-after older windows (All-kept _ (aggregate J local_time serdes events) _ h))

  -- Both services together: the warnings that OutputWatcher sends for what App publishes of any windows
  -- are the verdicts on their aggregates, in order: for each aggregate and each metric, a comparison
  -- with the last values of that metric before it, and nothing by a metric whose store is broken. This
  -- is for stores that do not have the key of the aggregation yet, and for aggregates of which the
  -- JSON is written and read back with the same three metrics.
  pub watch-publish :
      {D : Type 0} (J : Jackson D) (local_time : ℤ → T) (serdes : Serdes T D)
      (to_json_string : AggregatedFlow T → Option (List ℕ))
      (from_json_string : List ℕ → Option (AggregatedFlow T)) (stores : Stores F C)
      (windows : List (List (Event T)))
      → ((metric : Metric) → (store_of F C limits m size metric stores).rows global_key ≡ none)
      → All (RoundTrip to_json_string from_json_string) (aggregates J local_time serdes windows)
      → (watch F C limits from_json_string
          (publish J local_time serdes to_json_string windows)
          stores).0
        ≡ verdicts stores [] (aggregates J local_time serdes windows)
  unfolding feed
  watch-publish J local_time serdes to_json_string from_json_string stores windows fresh h =
      watch-after J local_time serdes to_json_string from_json_string stores fresh [] windows h
