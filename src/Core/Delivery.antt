-- ===== src/Core/Delivery.antt =====
-- The whole way: from the frames that pkt_handler captures, under any interleaving with flush_worker
-- (sniffer/src/main.c), to the aggregate of kafkatch-core (App.java).
use kaf_katch.Prelude.{
  ℕ, ◌+◌, ◌^◌, ◌≤◌, ◌<◌, ◌≡◌, refl, sym, subst, ap, some, List, [], ◌∷◌, ◌++◌, map, length,
  length-append, All, Permᴰ, arith,
}
use mathlib.Core.List.{map-append}
use mathlib.Core.List.Permᴰ
use kaf_katch.Prelude.Int.{ℤ}
use kaf_katch.Double.{Double}
use kaf_katch.Sniffer.Stats.{PktStats}
use kaf_katch.Sniffer.Flow as SnifferFlow
use kaf_katch.Sniffer.Flow.Summary.{IsSized, payload}
use kaf_katch.Sniffer.Machine.{payloads, Call, produce}
use kaf_katch.Sniffer.UtHash.{UtHash}
use kaf_katch.Sniffer.Window.{Network, window}
use kaf_katch.Sniffer.Window.Types.{AreParsed}
use kaf_katch.Sniffer.Window.Sums.{sum_of, any_direction}
use kaf_katch.Sniffer.Window.Series.{packets_of, flows_of}
use kaf_katch.Sniffer.Kafka.{flow_json}
use kaf_katch.Sniffer.System.{System, Reaches, start, resting}
use kaf_katch.Sniffer.System.Messages.{
  report, window_report, reports, Reaches-HasParsed, calls-reports,
}
use kaf_katch.Core.Jackson.{Jackson}
use kaf_katch.Core.Parser.Message.{flow_value, Reads}
use kaf_katch.Core.Readable.{IsWindow, IsSeries}
use kaf_katch.Core.Aggregate.{AggregatedFlow, Serdes, IsFaithful, Event, aggregate}
use kaf_katch.Core.Measures.{Measures}
use kaf_katch.Core.Sent.{Sent, events, sent_flows}
use kaf_katch.Core.Pipeline.{aggregate-Measures}

module _ (F : Double) where
  payloads-report :
      (fs : List (SnifferFlow.Flow F.Carrier)) (calls : List Call)
      → Permᴰ (map (flow_json F) fs ++ payloads calls) (payloads (report F fs calls))
  unfolding payloads report
  payloads-report [] calls = Permᴰ.refl (payloads calls)
  payloads-report (f ∷ fs) calls =
      Permᴰ.trans
        (Permᴰ.symm (Permᴰ.middle (flow_json F f) (map (flow_json F) fs) (payloads calls)))
        (payloads-report fs (produce _ (flow_json F f) ∷ calls))

  payloads-window_report :
      (fs : List (SnifferFlow.Flow F.Carrier)) (calls : List Call)
      → Permᴰ (map (flow_json F) fs ++ payloads calls) (payloads (window_report F fs calls))
  unfolding payloads window_report
  payloads-window_report [] calls = Permᴰ.refl (payloads calls)
  payloads-window_report (f ∷ fs) calls = payloads-report (f ∷ fs) calls

  payloads-reports :
      (net : Network) (windows : List (List PktStats))
      → Permᴰ (map (flow_json F) (flows_of F net windows)) (payloads (reports F net windows))
  unfolding reports
  payloads-reports net [] = unfold payloads in Permᴰ.nil
  payloads-reports net (history ∷ older) =
      subst (λ l. Permᴰ l (payloads (reports F net (history ∷ older))))
        (sym (map-append (flow_json F) (window F net history) (flows_of F net older)))
        (Permᴰ.trans
          (Permᴰ.append_left (map (flow_json F) (window F net history))
            (payloads-reports net older))
          (payloads-window_report (window F net history) (reports F net older)))

pub short_windows :
    (n : ℕ) (windows : List (List PktStats))
    → length (packets_of windows) < n
    → All (λ history. length history < n) windows
short_windows n [] h = tt
short_windows n (history ∷ older) h =
    let sum : length (history ++ packets_of older) ≡ length history + length (packets_of older) =
      length-append history (packets_of older) in
    (omega arith, short_windows n older (omega arith))

pub All-IsWindow :
    (net : Network) (windows : List (List PktStats))
    → All AreParsed windows
    → All (λ history. All IsSized history) windows
    → All (λ history. length history < 2 ^ 31) windows
    → All (λ history. sum_of net any_direction payload history < 2 ^ 31) windows
    → All (IsWindow net) windows
All-IsWindow net [] p z n v = tt
All-IsWindow net (history ∷ older) p z n v = (
  record { parsed_packets = p.0; sizes = z.0; packets = n.0; volume = v.0 },
  All-IsWindow net older p.1 z.1 n.1 v.1,
)

module _ {T : Type 0} (F : Double) (U : UtHash) (J : Jackson F.Carrier) (local_time : ℤ → T)
    (serdes : Serdes T F.Carrier) where
  abbrev pub texts : List (Event T) → List (List ℕ)
  texts events = map (λ e. e.json) events

  pub texts-events :
      (sent : List (Sent F J local_time serdes))
      → map (flow_json F) (sent_flows F J local_time serdes sent)
        ≡ texts (events F J local_time serdes sent)
  texts-events [] = refl
  texts-events (s ∷ sent) = ap (λ l. flow_json F s.flow ∷ l) (texts-events sent)

  -- What Kafka was sent when flush_worker rests.
  pub payloads-flows_of :
      (short : (d : F.Carrier) → length (F.print_1f d) ≤ 312) (net : Network) (quota : ℕ)
      {s : System F U}
      → Reaches F U (start F U net.net_ip net.net_mask quota) s
      → s.flusher ≡ resting
      → Permᴰ (payloads s.world.calls) (map (flow_json F) (flows_of F net s.closed))
  payloads-flows_of short net quota {s} r e =
      subst (λ calls. Permᴰ (payloads calls) (map (flow_json F) (flows_of F net s.closed)))
        (sym (calls-reports F U short net quota r e)) (Permᴰ.symm (payloads-reports F net s.closed))

  -- The whole way: whenever flush_worker rests, however the two threads interleaved, the messages that
  -- Kafka was sent, received in whatever order, make an aggregate that measures all the packets that
  -- were captured before the last exchange: their bytes and numbers by direction, their mean size,
  -- their TCP flags, and their unique flows. This is for at least one packet and fewer than 2 ^ 31,
  -- and fewer than 2 ^ 31 payload bytes in each window, if `%.1f` prints no more than 312 bytes, if
  -- readTree reads the messages as JSON, and if the topic of groupBy and the state store give back
  -- what they were given.
  pub delivered-Measures :
      (short : (d : F.Carrier) → length (F.print_1f d) ≤ 312) (net : Network) (quota : ℕ)
      {s : System F U} (sent : List (Sent F J local_time serdes))
      → Reaches F U (start F U net.net_ip net.net_mask quota) s
      → s.flusher ≡ resting
      → IsFaithful serdes
      → Permᴰ (flows_of F net s.closed) (sent_flows F J local_time serdes sent)
      → All (λ f. Reads F J local_time (flow_value F f)) (flows_of F net s.closed)
      → 0 < length (packets_of s.closed)
      → length (packets_of s.closed) < 2 ^ 31
      → All (λ history. sum_of net any_direction payload history < 2 ^ 31) s.closed
      → Permᴰ (payloads s.world.calls) (texts (events F J local_time serdes sent))
        × ((agg : AggregatedFlow T) × (aggregate J local_time serdes
                (events F J local_time serdes sent)
              ≡ some agg)
            × Measures F net agg (packets_of s.closed))
  delivered-Measures short net quota {s} sent r e whole order j busy few volumes =
      let v = Reaches-HasParsed F U net.net_ip net.net_mask quota r in
      let series : IsSeries net s.closed = record {
        each =
            All-IsWindow net s.closed v.past v.sized_past (short_windows (2 ^ 31) s.closed few)
              volumes;
        some_packet = busy;
        packets = few;
      } in
      (
        subst (Permᴰ (payloads s.world.calls)) (texts-events sent)
            (Permᴰ.trans (payloads-flows_of short net quota r e) (Permᴰ.map (flow_json F) order)),
        aggregate-Measures F J local_time serdes net s.closed sent whole series j order,
      )
