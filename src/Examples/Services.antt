-- ===== src/Examples/Services.antt =====
-- The theorems on the services at concrete inputs.
use kaf_katch.Prelude.{length, inl, inr, Permᴰ, ◌≡◌, ◌≢◌, refl, some, [], ◌∷◌, arith}
use kaf_katch.Prelude.Int.{ℤ, pos, ◌-ℤ◌}
use kaf_katch.Words.{ntohs}
use kaf_katch.Text.{codes, join, inet_ntop, decimal}
use kaf_katch.Core.Jackson.{print_onto, lookup_field}
use kaf_katch.Core.Flow.{protocol_value_of, direction_value_of}
use kaf_katch.Sniffer.Flow.{new_flow, flow_update_stats, infer_direction}
use kaf_katch.Sniffer.Window.{window, capture, open_flow}
use kaf_katch.Sniffer.Window.Sums.{sum_of}
use kaf_katch.Sniffer.Kafka.{flow_json, proto_str, dir_to_str, mean_iat}
use kaf_katch.Core.Flow as CoreFlow
use kaf_katch.Core.Parser.{read_json}
use kaf_katch.Core.Parser.Message.{flow_value, reported, read_json-flow_json}
use kaf_katch.Core.Aggregate.{AggregatedFlow, new_aggregate, aggregate, add_flow}
use kaf_katch.Core.Aggregate.Window.{surviving, aggregate-surviving, IsAggregate}
use kaf_katch.Core.Measures.{Measures}
use kaf_katch.Core.Sent.{events}
use kaf_katch.Core.Pipeline.{aggregate-Measures}
use kaf_katch.Core.FlowKey.{flow_key_of-injective}
use kaf_katch.Core.FlowKey.Collision.{short_port, long_port, add_flow-collides}
use kaf_katch.Notification.Rolling.{add, rolled, add-rolled}
use kaf_katch.Core.Delivery.{texts, delivered-Measures}
use kaf_katch.Sniffer.Machine.{payloads}
use kaf_katch.Sniffer.UtHash.{list_table}
use kaf_katch.Sniffer.Stats.{key_eq}
use kaf_katch.Samples.{int_double, lan, exported}
use kaf_katch.Samples.Services.{
  forgetful, service_stats, service_flow, jackson_of, lossless, lossless-IsFaithful, same_time,
  message, garbage, captured_flow, sent_once, two_windows,
}

read_json-flow_json_example :
    read_json
      (jackson_of (flow_value int_double service_flow))
      same_time
      (flow_json int_double service_flow)
      (pos 5)
    ≡ some (
        reported int_double
          (jackson_of (flow_value int_double service_flow))
          same_time
          service_flow
          (pos 5))
unfolding ntohs flow_value new_flow print_onto inet_ntop decimal proto_str dir_to_str
read_json-flow_json_example =
    read_json-flow_json int_double (jackson_of (flow_value int_double service_flow)) same_time
      service_flow (pos 5) (omega arith) (omega arith) refl

-- Each flow starts an aggregate of its own.
aggregate-surviving_example :
    IsAggregate
      (aggregate
        (jackson_of (flow_value int_double service_flow))
        same_time
        forgetful
        (message ∷ garbage ∷ message ∷ []))
      (surviving
        (jackson_of (flow_value int_double service_flow))
        same_time
        forgetful
        (message ∷ garbage ∷ message ∷ []))
unfolding read_json flow_json ntohs flow_value new_flow print_onto join inet_ntop decimal proto_str
    dir_to_str mean_iat lookup_field protocol_value_of direction_value_of
aggregate-surviving_example =
    aggregate-surviving (jackson_of (flow_value int_double service_flow)) same_time forgetful
      (record { regroups = λ flow. inr refl; reloads = λ agg. inl refl })
      (message ∷ garbage ∷ message ∷ []) (omega arith) (ground arith)

surviving_test :
    length (
      surviving
        (jackson_of (flow_value int_double service_flow))
        same_time
        forgetful
        (message ∷ garbage ∷ message ∷ []))
    ≡ 1
unfolding aggregate read_json flow_json ntohs flow_value new_flow print_onto join inet_ntop decimal
    proto_str dir_to_str mean_iat lookup_field protocol_value_of direction_value_of
surviving_test = refl

flow_key_of-injective_example : service_stats.key ≡ service_stats.key
unfolding ntohs
flow_key_of-injective_example =
    flow_key_of-injective service_stats.key service_stats.key (omega arith) (omega arith) refl

add-rolled_example :
    add (pos 7) (rolled 2 (pos 1 ∷ pos 2 ∷ [])) ≡ some (rolled 2 (pos 1 ∷ pos 2 ∷ pos 7 ∷ []))
add-rolled_example = add-rolled 2 (pos 1 ∷ pos 2 ∷ []) (pos 7)

-- Two connections of the addresses 10.0.0.11 and 10.0.0.1, from the ports 2 and 12.
abbrev connection : CoreFlow.Flow ℤ ℤ
connection =
    reported int_double (jackson_of (flow_value int_double service_flow)) same_time service_flow
      (pos 5)

add_flow-collides_example :
    ((add_flow (pos 3) (long_port connection (codes "10.0.0.1") 1 2) (
        add_flow
          (pos 2)
          (short_port connection (codes "10.0.0.1") 1 2)
          (new_aggregate (pos 1)))).unique_flow_count
      ≡ pos 1)
    × (pos 2 ≢ pos 12)
add_flow-collides_example =
    add_flow-collides connection (codes "10.0.0.1") 1 2 (pos 1) (pos 2) (pos 3) (omega arith)
      (omega arith)

aggregate-Measures_example :
    (agg : AggregatedFlow ℤ) × (aggregate
        (jackson_of (flow_value int_double captured_flow))
        same_time
        lossless
        (events int_double
          (jackson_of (flow_value int_double captured_flow))
          same_time
          lossless
          (sent_once ∷ sent_once ∷ []))
      ≡ some agg)
    × Measures int_double lan agg (service_stats ∷ service_stats ∷ [])
unfolding window capture sum_of ntohs flow_value new_flow print_onto inet_ntop decimal proto_str
    dir_to_str mean_iat open_flow flow_update_stats infer_direction key_eq
aggregate-Measures_example =
    aggregate-Measures int_double (jackson_of (flow_value int_double captured_flow)) same_time
      lossless lan two_windows (sent_once ∷ sent_once ∷ []) lossless-IsFaithful (ground arith)
      (ground arith) (Permᴰ.swap refl refl)

delivered-Measures_example :
    Permᴰ (payloads exported.last.world.calls) (
      texts int_double list_table
        (jackson_of (flow_value int_double captured_flow))
        same_time
        lossless
        (events int_double
          (jackson_of (flow_value int_double captured_flow))
          same_time
          lossless
          (sent_once ∷ [])))
    × ((agg : AggregatedFlow ℤ) × (aggregate
            (jackson_of (flow_value int_double captured_flow))
            same_time
            lossless
            (events int_double
              (jackson_of (flow_value int_double captured_flow))
              same_time
              lossless
              (sent_once ∷ []))
          ≡ some agg)
        × Measures int_double lan agg (service_stats ∷ []))
unfolding exported window capture sum_of ntohs flow_value new_flow print_onto inet_ntop decimal
    proto_str dir_to_str mean_iat open_flow flow_update_stats infer_direction key_eq ◌-ℤ◌
delivered-Measures_example =
    delivered-Measures int_double list_table (jackson_of (flow_value int_double captured_flow))
      same_time lossless (λ d. omega arith) lan 10 (sent_once ∷ []) exported.reach refl
      lossless-IsFaithful (Permᴰ.cons refl Permᴰ.nil) (ground arith) (ground arith) (ground arith)
      (ground arith)
