-- ===== src/Examples/Steady.antt =====
-- The theorems on steady traffic at concrete inputs.
use kaf_katch.Prelude.{◌≤◌, List, ℕ, ◌≡◌, refl, none, some, [], ◌∷◌, arith, ◌*◌, ◌^◌}
use kaf_katch.Prelude.Int.{ℤ, pos, ◌+ℤ◌}
use kaf_katch.Words.{ntohs}
use kaf_katch.Long.{to_long, to_int}
use kaf_katch.Text.{codes, inet_ntop, decimal, join}
use kaf_katch.Core.Jackson.{print_onto, lookup_field}
use kaf_katch.Sniffer.Flow.{new_flow, flow_update_stats, infer_direction}
use kaf_katch.Sniffer.Window.{open_flow}
use kaf_katch.Sniffer.Kafka.{proto_str, dir_to_str, mean_iat, flow_json}
use kaf_katch.Core.Parser.Message.{flow_value}
use kaf_katch.Core.Aggregate.{AggregatedFlow, Event, new_aggregate, aggregate, add_flow}
use kaf_katch.Notification.Detector.{Stores, transform}
use kaf_katch.Notification.Detector.History.{feed, Metric, store_of, inbound, outbound, flows}
use kaf_katch.Core.Publish.{global_key, publish}
use kaf_katch.Notification.Watcher.Published.{aggregates}
use kaf_katch.Notification.Watcher.{watch}
use kaf_katch.Samples.{int_double}
use kaf_katch.Samples.Services.{jackson_of, lossless, same_time, captured_flow}
use kaf_katch.Notification.Watcher.Steady.{AreAboveOne, watch-steady}
use kaf_katch.Notification.Detector.Steady.{AreLevel, HasAlta, transform-HasAlta}
use kaf_katch.Core.Parser.{read_json}
use kaf_katch.Core.Flow.{protocol_value_of, direction_value_of}
use kaf_katch.Samples.Alerts.{
  write_metrics, read_metrics, whole_double, whole_comparisons, whole-IsExactQuotient, whole_limits,
  empty_store, quiet, All-RoundTrip,
}

abbrev above_one : AreAboveOne whole_double whole_comparisons whole_limits
above_one = record { regular = refl; media = refl; alta = refl }

abbrev sound : Stores whole_double whole_comparisons
sound = record { inbound = empty_store; outbound = empty_store; flows = empty_store }

sound-rows :
    (key : List ℕ) (metric : Metric)
    → (store_of whole_double whole_comparisons whole_limits 20 refl metric sound).rows key ≡ none
sound-rows key inbound = refl
sound-rows key outbound = refl
sound-rows key flows = refl

-- Seven flows, four times, and then thirty.
abbrev seven : AggregatedFlow ℤ
seven = record quiet { unique_flow_count = pos 7 }

transform-HasAlta_example :
    HasAlta
      (transform whole_double whole_comparisons whole_limits
        (some (codes "k"))
        (some (record quiet { unique_flow_count = pos 30 }))
        (feed whole_double whole_comparisons whole_limits 20 refl
          (codes "k")
          (seven ∷ seven ∷ seven ∷ seven ∷ [])
          sound)).0
transform-HasAlta_example =
    transform-HasAlta whole_double whole_comparisons whole-IsExactQuotient whole_limits 20 refl
      flows 7 (codes "k") (seven ∷ seven ∷ seven ∷ seven ∷ [])
      (record quiet { unique_flow_count = pos 30 }) sound (sound-rows (codes "k")) refl
      (omega arith) (omega arith) (omega arith) (omega arith) (ground arith) refl

-- The same packet in each of four windows, of three bytes outbound.
abbrev upload_message : Event ℤ
upload_message = record { json = flow_json int_double captured_flow; received = pos 5; now = pos 6 }

abbrev same_windows : List (List (Event ℤ))
same_windows =
    (upload_message ∷ [])
    ∷ (upload_message ∷ [])
    ∷ (upload_message ∷ [])
    ∷ (upload_message ∷ [])
    ∷ []

abbrev same_levels : Metric → ℕ
same_levels inbound = 0
same_levels outbound = 3
same_levels flows = 1

same_levels-fit : (metric : Metric) → 20 * same_levels metric ≤ 2 ^ 53
same_levels-fit inbound = omega arith
same_levels-fit outbound = omega arith
same_levels-fit flows = omega arith

same_windows-AreLevel :
    (metric : Metric)
    → AreLevel metric (same_levels metric) (
        aggregates
          (jackson_of (flow_value int_double captured_flow))
          same_time
          lossless
          same_windows)
unfolding aggregate read_json flow_json ntohs flow_value new_flow print_onto join inet_ntop decimal
    proto_str dir_to_str mean_iat lookup_field protocol_value_of direction_value_of open_flow
    flow_update_stats infer_direction add_flow new_aggregate to_long to_int ◌+ℤ◌
same_windows-AreLevel inbound = ground arith
same_windows-AreLevel outbound = ground arith
same_windows-AreLevel flows = ground arith

watch-steady_example :
    (watch whole_double whole_comparisons whole_limits read_metrics
      (publish
        (jackson_of (flow_value int_double captured_flow))
        same_time
        lossless
        write_metrics
        same_windows)
      sound).0
    ≡ []
watch-steady_example =
    watch-steady whole_double whole_comparisons whole-IsExactQuotient whole_limits 20 refl above_one
      (omega arith) sound same_levels same_levels-fit
      (jackson_of (flow_value int_double captured_flow)) same_time lossless write_metrics
      read_metrics same_windows (sound-rows global_key) (All-RoundTrip _) same_windows-AreLevel
