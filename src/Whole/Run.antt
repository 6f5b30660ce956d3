-- ===== src/Whole/Run.antt =====
-- The sniffer, the aggregation and the detector together, from a run of the two threads of the sniffer
-- (sniffer/src/main.c) on.
use kaf_katch.Prelude.{
  ℕ, ◌^◌, ◌≤◌, ◌<◌, ◌≡◌, sym, subst, ap, ◌∙◌, Option, none, List, [], ◌∷◌, ◌++◌, map, length, All,
  All-append_split, Permᴰ,
}
use mathlib.Core.List.{map-append}
use mathlib.Core.List.Permᴰ
use kaf_katch.Prelude.Int.{ℤ, pos}
use kaf_katch.Double.{Double}
use kaf_katch.Sniffer.Stats.{PktStats}
use kaf_katch.Sniffer.Flow.Summary.{IsSized, payload}
use kaf_katch.Sniffer.UtHash.{UtHash}
use kaf_katch.Sniffer.Window.{Network}
use kaf_katch.Sniffer.Window.Types.{AreParsed}
use kaf_katch.Sniffer.Window.Sums.{sum_of, any_direction}
use kaf_katch.Sniffer.Window.Series.{packets_of, flows_of, flows_of-append}
use kaf_katch.Sniffer.Kafka.{flow_json}
use kaf_katch.Sniffer.System.{System, Reaches, start, resting}
use kaf_katch.Sniffer.System.Messages.{Reaches-HasParsed}
use kaf_katch.Core.Jackson.{Jackson}
use kaf_katch.Core.Parser.Message.{flow_value, Reads}
use kaf_katch.Core.Aggregate.{AggregatedFlow, Serdes, IsFaithful}
use kaf_katch.Core.Publish.{global_key, publish}
use kaf_katch.Core.Sent.{events, sent_flows}
use kaf_katch.Core.Delivery.{texts, texts-events, short_windows, All-IsWindow, payloads-flows_of}
use kaf_katch.Sniffer.Machine.{payloads}
use kaf_katch.Notification.Detector.{Comparisons, Limits, Stores}
use kaf_katch.Notification.Detector.History.{Metric, store_of}
use kaf_katch.Notification.Watcher.{watch}
use kaf_katch.Notification.Watcher.Published.{RoundTrip, aggregates, verdicts}
use kaf_katch.Whole.{Group, IsGroup, received, AreMeasured, watch-measured}

module _ {T : Type 0} (F : Double) (U : UtHash) (J : Jackson F.Carrier) (local_time : ℤ → T)
    (serdes : Serdes T F.Carrier) (net : Network) where
  -- All windows of the sniffer, the newest first, of groups with the oldest first.
  abbrev pub all_windows : List (Group F J local_time serdes net) → List (List PktStats)
  all_windows [] = []
  all_windows (g ∷ groups) = all_windows groups ++ g.windows

  -- And all messages, those of the newest group first.
  abbrev pub all_texts : List (Group F J local_time serdes net) → List (List ℕ)
  all_texts [] = []
  all_texts (g ∷ groups) =
      all_texts groups ++ texts F U J local_time serdes (events F J local_time serdes g.sent)

  -- The messages of its windows, in some order, are what a group received, read as JSON, and within
  -- the bounds of the counters.
  pub record IsReceived (g : Group F J local_time serdes net) : Type 0 where
    pub order : Permᴰ (flows_of F net g.windows) (sent_flows F J local_time serdes g.sent)
    pub reads : All (λ f. Reads F J local_time (flow_value F f)) (flows_of F net g.windows)
    pub some_packet : 0 < length (packets_of g.windows)
    pub packets : length (packets_of g.windows) < 2 ^ 31
    pub volumes : All (λ history. sum_of net any_direction payload history < 2 ^ 31) g.windows

  All-IsGroup :
      (groups : List (Group F J local_time serdes net))
      → All AreParsed (all_windows groups)
      → All (λ history. All IsSized history) (all_windows groups)
      → All IsReceived groups
      → All (IsGroup F J local_time serdes net) groups
  All-IsGroup [] p z h = tt
  All-IsGroup (g ∷ groups) p z h =
      let (p_newer, p_here) = All-append_split AreParsed (all_windows groups) g.windows p in
      let (z_newer, z_here) =
        All-append_split (λ history. All IsSized history) (all_windows groups) g.windows z in
      let r = h.0 in
      (
        record {
          series = record {
            each =
                All-IsWindow net g.windows p_here z_here
                  (short_windows (2 ^ 31) g.windows r.packets) r.volumes;
            some_packet = r.some_packet;
            packets = r.packets;
          };
          order = r.order;
          reads = r.reads;
        },
        All-IsGroup groups p_newer z_newer h.1,
      )

  jsons-all_texts :
      (groups : List (Group F J local_time serdes net))
      → All IsReceived groups
      → Permᴰ (map (flow_json F) (flows_of F net (all_windows groups))) (all_texts groups)
  jsons-all_texts [] h = Permᴰ.nil
  jsons-all_texts (g ∷ groups) h =
      let r = h.0 in
      let split : map (flow_json F) (flows_of F net (all_windows groups))
            ++ map (flow_json F) (flows_of F net g.windows)
          ≡ map (flow_json F) (flows_of F net (all_windows groups ++ g.windows)) =
        sym (
          ap (map (flow_json F)) (flows_of-append F net (all_windows groups) g.windows)
          ∙ map-append (flow_json F) (flows_of F net (all_windows groups))
              (flows_of F net g.windows)) in
      let here : Permᴰ (map (flow_json F) (flows_of F net g.windows))
          (texts F U J local_time serdes (events F J local_time serdes g.sent)) =
        subst (Permᴰ (map (flow_json F) (flows_of F net g.windows)))
          (texts-events F U J local_time serdes g.sent) (Permᴰ.map (flow_json F) r.order) in
      subst (λ l. Permᴰ l (all_texts (g ∷ groups))) split
        (Permᴰ.trans
          (Permᴰ.append_right (map (flow_json F) (flows_of F net g.windows))
            (jsons-all_texts groups h.1))
          (Permᴰ.append_left (all_texts groups) here))

  module _ (C : Comparisons F) (limits : Limits F C) (m : ℕ)
      (size : limits.window_size ≡ pos m) where
    -- From captured frames to warnings: whenever flush_worker rests, however the two threads
    -- interleaved, and however the windows that it closed are shared out, in their order, among the
    -- windows of the aggregation, the messages that these receive are exactly what Kafka was sent, in
    -- some order; there is one aggregate for each, which measures the packets captured in its
    -- windows; and the warnings that OutputWatcher sends are the verdicts on these aggregates, each by
    -- the last values before it. This is for at least one packet and fewer than 2 ^ 31 in a window
    -- of the aggregation, fewer than 2 ^ 31 payload bytes in one of the sniffer, if `%.1f` prints no
    -- more than 312 bytes, for stores that do not have the key of the aggregation yet, serializers
    -- that lose nothing, and JSON that Jackson reads back: the messages, and of the aggregates the
    -- three metrics.
    pub watch-delivered :
        (short : (d : F.Carrier) → length (F.print_1f d) ≤ 312) (quota : ℕ) {s : System F U}
        (groups : List (Group F J local_time serdes net)) (stores : Stores F C)
        (to_json_string : AggregatedFlow T → Option (List ℕ))
        (from_json_string : List ℕ → Option (AggregatedFlow T))
        → Reaches F U (start F U net.net_ip net.net_mask quota) s
        → s.flusher ≡ resting
        → s.closed ≡ all_windows groups
        → IsFaithful serdes
        → All IsReceived groups
        → ((metric : Metric) → (store_of F C limits m size metric stores).rows global_key ≡ none)
        → All
            (RoundTrip to_json_string from_json_string)
            (aggregates J local_time serdes (received F J local_time serdes net groups))
        → Permᴰ (payloads s.world.calls) (all_texts groups)
          × ((watch F C limits from_json_string
                (publish J local_time serdes to_json_string
                  (received F J local_time serdes net groups))
                stores).0
              ≡ verdicts F C limits m size stores []
                  (aggregates J local_time serdes (received F J local_time serdes net groups)))
          × AreMeasured F J local_time serdes net
              (aggregates J local_time serdes (received F J local_time serdes net groups))
              groups
    watch-delivered short quota {s} groups stores to_json_string from_json_string r e shared whole h
          fresh trips =
        let v = Reaches-HasParsed F U net.net_ip net.net_mask quota r in
        let all =
          All-IsGroup groups (subst (All AreParsed) shared v.past)
            (subst (All (λ history. All IsSized history)) shared v.sized_past) h in
        let sent : Permᴰ (payloads s.world.calls) (all_texts groups) =
          Permᴰ.trans
            (subst
              (λ windows.
                Permᴰ (payloads s.world.calls) (map (flow_json F) (flows_of F net windows)))
              shared (payloads-flows_of F U J local_time serdes short net quota r e))
            (jsons-all_texts groups h) in
        let (warnings, measured) =
          watch-measured F J local_time serdes net C limits m size groups stores to_json_string
            from_json_string whole all fresh trips in
        (sent, warnings, measured)
