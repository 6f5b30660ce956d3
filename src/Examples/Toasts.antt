-- ===== src/Examples/Toasts.antt =====
-- The theorems on the way of the warnings to the toasts at concrete inputs.
use kaf_katch.Prelude.{
  length, map, List, Option, some, ◌++◌, Permᴰ, ◌≡◌, refl, none, [], ◌∷◌, arith,
}
use kaf_katch.Prelude.Int.{ℤ, ◌-ℤ◌}
use kaf_katch.Words.{ntohs}
use kaf_katch.Text.{inet_ntop, decimal}
use kaf_katch.Core.Jackson.{Jackson, print_onto}
use kaf_katch.Core.Aggregate.{AggregatedFlow}
use kaf_katch.Sniffer.Flow.{new_flow, flow_update_stats, infer_direction}
use kaf_katch.Sniffer.Window.{window, capture, open_flow}
use kaf_katch.Sniffer.Window.Sums.{sum_of}
use kaf_katch.Sniffer.Kafka.{proto_str, dir_to_str, mean_iat}
use kaf_katch.Core.Parser.Message.{flow_value}
use kaf_katch.Notification.Detector.History.{Metric, store_of, inbound, outbound, flows}
use kaf_katch.Core.Publish.{global_key, publish}
use kaf_katch.Notification.Watcher.Published.{aggregates, verdicts}
use kaf_katch.Sniffer.Stats.{key_eq}
use kaf_katch.Notification.Watcher.{watch}
use kaf_katch.Whole.{Group, received, AreMeasured}
use kaf_katch.Samples.{int_double, lan}
use kaf_katch.Samples.Services.{
  jackson_of, lossless, lossless-IsFaithful, same_time, captured_flow, sent_once, service_stats,
}
use kaf_katch.Samples.Alerts.{
  write_metrics, read_metrics, comparisons, limits, half_broken, All-RoundTrip,
}
use kaf_katch.Whole.Run.{all_texts, IsReceived}
use kaf_katch.Whole.Toasts.{view-delivered}
use kaf_katch.Core.Serializers.{Value, deserialize}
use kaf_katch.Viewer.Polls.{view, view-stuck, AreRead}
use kaf_katch.Viewer.{show_records, notify}
use kaf_katch.Notification.Detector.{Warning}
use kaf_katch.Samples.Toasts.{
  four_windows, plain_mapper, values_of, values_of-AreSent, All-ReadsBack, list_consumer,
  list_consumer-KeepsUp,
}
use kaf_katch.Sniffer.UtHash.{list_table}
use kaf_katch.Sniffer.Machine.{payloads}

-- One of the four windows, and its message.
abbrev sent_group :
    Group int_double (jackson_of (flow_value int_double captured_flow)) same_time lossless lan
sent_group = record { windows = (service_stats ∷ []) ∷ []; sent = sent_once ∷ [] }

empty-rows :
    (metric : Metric)
    → (store_of int_double comparisons limits 20 refl metric half_broken).rows global_key ≡ none
empty-rows inbound = refl
empty-rows outbound = refl
empty-rows flows = refl

abbrev known : Jackson ℤ
known = jackson_of (flow_value int_double captured_flow)

abbrev four_groups : List (Group int_double known same_time lossless lan)
four_groups = sent_group ∷ sent_group ∷ sent_group ∷ sent_group ∷ []

abbrev four_aggregates : List (AggregatedFlow ℤ)
four_aggregates =
    aggregates known same_time lossless
      (received int_double known same_time lossless lan four_groups)

abbrev four_values : List Value
four_values =
    values_of
      (watch int_double comparisons limits read_metrics
        (publish known same_time lossless write_metrics
          (received int_double known same_time lossless lan four_groups))
        half_broken).0

view-delivered_example :
    Permᴰ
      (payloads four_windows.last.world.calls)
      (all_texts int_double list_table known same_time lossless lan four_groups)
    × AreMeasured int_double known same_time lossless lan four_aggregates four_groups
    × ((view plain_mapper (λ text. text) list_consumer (length four_values) four_values).0
        ≡ map
            (notify (λ text. text))
            (verdicts int_double comparisons limits 20 refl half_broken [] four_aggregates))
unfolding four_windows window capture sum_of ntohs flow_value new_flow print_onto inet_ntop decimal
    proto_str dir_to_str mean_iat open_flow flow_update_stats infer_direction key_eq ◌-ℤ◌
view-delivered_example =
    view-delivered int_double list_table known same_time lossless lan comparisons limits 20 refl
      (λ text. text) plain_mapper list_consumer (λ d. omega arith) 10 four_groups half_broken
      write_metrics read_metrics (length four_values) four_values
      (list_consumer-KeepsUp (λ text. text)) four_windows.reach refl refl lossless-IsFaithful
      (group_IsReceived, (group_IsReceived, (group_IsReceived, (group_IsReceived, tt)))) empty-rows
      (All-RoundTrip _) (values_of-AreSent (λ text. text) _) (All-ReadsBack (λ text. text) _)
      (omega arith)
  where
    group_IsReceived : IsReceived int_double list_table known same_time lossless lan sent_group
    group_IsReceived = record {
      order = Permᴰ.cons refl Permᴰ.nil;
      reads = ground arith;
      some_packet = ground arith;
      packets = ground arith;
      volumes = ground arith;
    }

-- A warning, then a record that is no JSON, then another warning.
abbrev spoilt : List Value
spoilt = some (1 ∷ 97 ∷ 120 ∷ []) ∷ some [] ∷ some (1 ∷ 98 ∷ 121 ∷ []) ∷ []

view-stuck_example :
    (seen : List Value) × (more : List Value) × (records : List (Option Warning)) × (some
          (1 ∷ 97 ∷ 120 ∷ [])
        ∷ []
      ≡ seen ++ more)
    × ((view plain_mapper (λ text. text) list_consumer 7 spoilt).1
        ≡ more ++ some [] ∷ some (1 ∷ 98 ∷ 121 ∷ []) ∷ [])
    × AreRead plain_mapper seen records
    × ((view plain_mapper (λ text. text) list_consumer 7 spoilt).0
        ≡ show_records (λ text. text) records)
view-stuck_example =
    view-stuck plain_mapper (λ text. text) list_consumer 7 spoilt (some (1 ∷ 97 ∷ 120 ∷ []) ∷ [])
      (some (1 ∷ 98 ∷ 121 ∷ []) ∷ []) (some []) refl (unfold deserialize in refl)
