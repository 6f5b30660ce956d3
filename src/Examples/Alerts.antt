-- ===== src/Examples/Alerts.antt =====
-- The theorems on the alerts at concrete inputs.
use kaf_katch.Prelude.{
  length, List, ℕ, Option, ◌≡◌, refl, false, true, none, some, [], ◌∷◌, ◌++◌, All, arith,
}
use kaf_katch.Prelude.Int.{ℤ, pos, ◌-ℤ◌, ◌+ℤ◌}
use kaf_katch.Long.{to_long}
use kaf_katch.Text.{codes}
use kaf_katch.Core.Parser.Message.{flow_value}
use kaf_katch.Core.Aggregate.{AggregatedFlow, Event, new_aggregate}
use kaf_katch.Notification.Detector.{transform}
use kaf_katch.Notification.Detector.History.{
  feed, expected, Metric, store_of, inbound, outbound, flows, transform-warnings,
}
use kaf_katch.Notification.Rolling.{last}
use kaf_katch.Notification.Notifier.{
  Bounds, new_notifier, add_aggregate_sample, drop_oldest, check_for_anomalies, largest,
}
use kaf_katch.Notification.Notifier.Sample.{holding}
use kaf_katch.Notification.App.{
  app_limits, app_notifier, consume, alarms, IsNoNull, consume-holding,
}
use kaf_katch.Notification.App.Null.{consume-null}
use kaf_katch.Core.Publish.{Message, global_key, publish}
use kaf_katch.Notification.Watcher.Published.{aggregates, verdicts, watch-publish}
use kaf_katch.Notification.Watcher.{watch}
use kaf_katch.Core.Splitter.{split, summaries, split-until}
use kaf_katch.Viewer.{TransitiveLe, KeepsSmall, IsKnown, watch-IsKnown}
use kaf_katch.Samples.{int_double}
use kaf_katch.Samples.Services.{service_flow, jackson_of, lossless, same_time, message, garbage}
use kaf_katch.Samples.Alerts.{
  write_metrics, read_metrics, comparisons, limits, half_broken, quiet, All-RoundTrip,
}

half_broken-rows :
    (key : List ℕ) (metric : Metric)
    → (store_of int_double comparisons limits 20 refl metric half_broken).rows key ≡ none
half_broken-rows key inbound = refl
half_broken-rows key outbound = refl
half_broken-rows key flows = refl

transform-warnings_example :
    (transform int_double comparisons limits
      (some (codes "k"))
      (some quiet)
      (feed int_double comparisons limits 20 refl (codes "k") (quiet ∷ quiet ∷ []) half_broken)).0
    ≡ expected int_double comparisons limits 20 refl inbound false (quiet ∷ quiet ∷ []) quiet
      ++ (expected int_double comparisons limits 20 refl outbound true (quiet ∷ quiet ∷ []) quiet
          ++ expected int_double comparisons limits 20 refl flows false (quiet ∷ quiet ∷ []) quiet)
transform-warnings_example =
    transform-warnings int_double comparisons limits 20 refl (codes "k") (quiet ∷ quiet ∷ []) quiet
      half_broken (half_broken-rows (codes "k"))

abbrev small : KeepsSmall (λ text. text)
small = record { alta = refl; media = refl; regular = refl }

le_trans_ℤ : TransitiveLe (λ text. text) int_double comparisons limits small
le_trans_ℤ a b c h k = ground (arith, h, k)

-- One message that cannot be read, and one that can.
abbrev messages : List Message
messages = record { key = none; value = codes "{" } ∷ record { key = none; value = [] } ∷ []

abbrev read_quiet : List ℕ → Option (AggregatedFlow ℤ)
read_quiet [] = some quiet
read_quiet (c ∷ text) = none

watch-IsKnown_example :
    All
      (IsKnown (λ text. text))
      (watch int_double comparisons limits read_quiet messages half_broken).0
watch-IsKnown_example =
    watch-IsKnown (λ text. text) int_double comparisons limits small read_quiet messages half_broken

abbrev loud : AggregatedFlow ℤ
loud = record quiet { bytes_inbound = pos 50000000 }

abbrev bounds : Bounds
bounds = record {
  bytes_inbound_limit = pos 9;
  bytes_outbound_limit = pos 9;
  unique_flow_limit = pos 9;
}

-- A null is read from any text of more than two characters.
abbrev read_sample : List ℕ → Option (Option (AggregatedFlow ℤ))
read_sample [] = some (some quiet)
read_sample (c ∷ []) = none
read_sample (c ∷ d ∷ []) = some (some loud)
read_sample (c ∷ d ∷ e ∷ text) = some none

-- The loud aggregate, a text that cannot be read, and two quiet aggregates.
abbrev aggregated : List (List ℕ)
aggregated = codes "{}" ∷ codes "{" ∷ [] ∷ [] ∷ []

aggregated-IsNoNull : All (IsNoNull read_sample) aggregated
aggregated-IsNoNull = (λ e. cc, (λ e. cc, (λ e. cc, (λ e. cc, tt))))

consume-holding_example : consume read_sample aggregated app_notifier ≡ (
  alarms read_sample app_limits (loud ∷ quiet ∷ quiet ∷ []),
  holding 60 app_limits (last 60 (loud ∷ quiet ∷ quiet ∷ [])),
)
unfolding app_notifier
consume-holding_example =
    consume-holding read_sample 60 app_limits aggregated (omega arith) aggregated-IsNoNull

-- Of the three loud aggregates behind a null, the last one makes no alert.
consume-null_example :
    (consume read_sample
      (codes "null" ∷ (codes "{}" ∷ codes "{}" ∷ []) ++ codes "{}" ∷ [])
      (new_notifier (pos 3) app_limits)).0
    ≡ alarms read_sample app_limits (loud ∷ loud ∷ [])
consume-null_example =
    consume-null read_sample 3 app_limits (codes "null") (codes "{}" ∷ codes "{}" ∷ []) (codes "{}")
      loud refl loud-IsNoNull refl refl
  where
    loud-IsNoNull : All (IsNoNull read_sample) (codes "{}" ∷ codes "{}" ∷ [])
    loud-IsNoNull = (λ e. cc, (λ e. cc, tt))

-- One alert, and the record of the loud aggregate has left the sample with it.
consume_test :
    length (consume read_sample aggregated (new_notifier (pos 2) bounds)).0 ≡ 1
    × (consume read_sample aggregated (new_notifier (pos 2) bounds)).1.bytes_inbound_record ≡ pos 0
unfolding consume check_for_anomalies new_notifier add_aggregate_sample drop_oldest largest
    new_aggregate ◌-ℤ◌ ◌+ℤ◌ to_long
consume_test = (refl, refl)

-- A window whose only message cannot be read, and two with the flow.
abbrev three_windows : List (List (Event ℤ))
three_windows = (garbage ∷ []) ∷ (message ∷ []) ∷ (message ∷ message ∷ []) ∷ []

split-until_example :
    split read_metrics (
      publish
        (jackson_of (flow_value int_double service_flow))
        same_time
        lossless
        write_metrics
        three_windows
      ++ record { key = none; value = codes "{" } ∷ record { key = none; value = [] } ∷ [])
    ≡ (
      summaries read_metrics (
          aggregates
            (jackson_of (flow_value int_double service_flow))
            same_time
            lossless
            three_windows),
      false,
    )
split-until_example =
    split-until read_metrics (jackson_of (flow_value int_double service_flow)) same_time lossless
      write_metrics three_windows (record { key = none; value = codes "{" })
      (record { key = none; value = [] } ∷ []) (All-RoundTrip _) refl

watch-publish_example :
    (watch int_double comparisons limits read_metrics
      (publish
        (jackson_of (flow_value int_double service_flow))
        same_time
        lossless
        write_metrics
        three_windows)
      half_broken).0
    ≡ verdicts int_double comparisons limits 20 refl half_broken [] (
        aggregates
          (jackson_of (flow_value int_double service_flow))
          same_time
          lossless
          three_windows)
watch-publish_example =
    watch-publish int_double comparisons limits 20 refl
      (jackson_of (flow_value int_double service_flow)) same_time lossless write_metrics
      read_metrics half_broken three_windows (half_broken-rows global_key) (All-RoundTrip _)
