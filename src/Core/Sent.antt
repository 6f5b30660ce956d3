-- ===== src/Core/Sent.antt =====
-- The flows of the sniffer that were sent and received (kafka_client.c), as the service reads them
-- (FlowParser.java, AggregatedFlow.java).
use kaf_katch.Prelude.{◌≡◌, refl, ap, Bool, List, [], ◌∷◌, length, All, arith}
use kaf_katch.Prelude.Int.{ℤ}
use kaf_katch.Double.{Double}
use kaf_katch.Sniffer.Flow.{FlowDirection, th_syn, th_fin, th_rst, th_ack}
use kaf_katch.Sniffer.Flow as SnifferFlow
use kaf_katch.Sniffer.Window.Sums.{sum_over, any_direction}
use kaf_katch.Sniffer.Kafka.{flow_json}
use kaf_katch.Core.Flow as CoreFlow
use kaf_katch.Core.Jackson.{Jackson}
use kaf_katch.Core.Parser.Message.{reported, direction_of, read_json-flow_json}
use kaf_katch.Core.Readable.{IsReadable}
use kaf_katch.Core.Aggregate.{Serdes, Event, unique_key}
use kaf_katch.Core.Aggregate.Keys.{keys_of}
use kaf_katch.Core.Uniques.{text_key, flow_texts}
use kaf_katch.Core.Aggregate.Totals.{total, any, HasCounters}
use kaf_katch.Core.Aggregate.Window.{parsed}

module _ {T : Type 0} (F : Double) (J : Jackson F.Carrier) (local_time : ℤ → T)
    (serdes : Serdes T F.Carrier) where
  -- A flow that was sent, when its message is received, and when it is added.
  pub record Sent : Type 0 where
    pub flow : SnifferFlow.Flow F.Carrier
    pub received : ℤ
    pub now : T

  abbrev pub events : List Sent → List (Event T)
  events [] = []
  events (s ∷ sent) =
      record { json = flow_json F s.flow; received = s.received; now = s.now } ∷ events sent

  abbrev pub sent_flows : List Sent → List (SnifferFlow.Flow F.Carrier)
  sent_flows [] = []
  sent_flows (s ∷ sent) = s.flow ∷ sent_flows sent

  abbrev pub reports : List Sent → List (CoreFlow.Flow T F.Carrier)
  reports [] = []
  reports (s ∷ sent) = reported F J local_time s.flow s.received ∷ reports sent

  pub parsed-events :
      (sent : List Sent)
      → All (IsReadable F J local_time) (sent_flows sent)
      → parsed J local_time serdes (events sent) ≡ reports sent
  parsed-events [] h = refl
  parsed-events (s ∷ sent) h = rw (
    read_json-flow_json F J local_time s.flow s.received h.0.fields h.0.ints h.0.reads,
    parsed-events sent h.1,
  )

  pub reports-HasCounters :
      (sent : List Sent)
      → All (IsReadable F J local_time) (sent_flows sent)
      → All HasCounters (reports sent)
  reports-HasCounters [] h = tt
  reports-HasCounters (s ∷ sent) h = let n = h.0.ints in (omega arith, reports-HasCounters sent h.1)

  pub length-events : (sent : List Sent) → length (events sent) ≡ length (sent_flows sent)
  length-events [] = refl
  length-events (s ∷ sent) = omega (arith, length-events sent)

  pub total-reports :
      (wanted : CoreFlow.FlowDirection → Bool) (sent : List Sent)
      → (total wanted (λ f. f.byte_count) (reports sent)
          ≡ sum_over (λ d. wanted (direction_of d)) (λ f. f.byte_count) (sent_flows sent))
        × (total wanted (λ f. f.packet_count) (reports sent)
            ≡ sum_over (λ d. wanted (direction_of d)) (λ f. f.packet_count) (sent_flows sent))
  unfolding total sum_over
  total-reports wanted [] = (refl, refl)
  total-reports wanted (s ∷ sent) = ground (arith, total-reports wanted sent)

  pub total-flags :
      (sent : List Sent)
      → (total any (λ f. f.tcp_syn_count) (reports sent)
          ≡ sum_over any_direction (λ f. f.tcp_syn_count) (sent_flows sent))
        × (total any (λ f. f.tcp_ack_count) (reports sent)
            ≡ sum_over any_direction (λ f. f.tcp_ack_count) (sent_flows sent))
        × (total any (λ f. f.tcp_fin_count) (reports sent)
            ≡ sum_over any_direction (λ f. f.tcp_fin_count) (sent_flows sent))
        × (total any (λ f. f.tcp_rst_count) (reports sent)
            ≡ sum_over any_direction (λ f. f.tcp_rst_count) (sent_flows sent))
  unfolding total sum_over
  total-flags [] = (refl, refl, refl, refl)
  total-flags (s ∷ sent) = ground (arith, total-flags sent)

  pub keys_of-reports : (sent : List Sent) → keys_of (reports sent) ≡ flow_texts (sent_flows sent)
  unfolding unique_key text_key
  keys_of-reports [] = refl
  keys_of-reports (s ∷ sent) = ap (λ keys. text_key s.flow.key ∷ keys) (keys_of-reports sent)
