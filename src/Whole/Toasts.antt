-- ===== src/Whole/Toasts.antt =====
-- The whole of KafKatch, from the frames that the sniffer captures (sniffer/src/main.c) to the toasts
-- of the viewer (kafkatch-alert-viewer).
use kaf_katch.Prelude.{ℕ, ◌≤◌, ◌≡◌, ap, ◌∙◌, Option, none, List, [], map, length, All, Permᴰ}
use kaf_katch.Prelude.Int.{ℤ, pos}
use kaf_katch.Double.{Double}
use kaf_katch.Sniffer.UtHash.{UtHash}
use kaf_katch.Sniffer.Window.{Network}
use kaf_katch.Sniffer.System.{System, Reaches, start, resting}
use kaf_katch.Core.Jackson.{Jackson}
use kaf_katch.Core.Aggregate.{AggregatedFlow, Serdes, IsFaithful}
use kaf_katch.Core.Publish.{global_key, publish}
use kaf_katch.Core.Delivery.{texts}
use kaf_katch.Sniffer.Machine.{payloads}
use kaf_katch.Notification.Detector.{Warning, Comparisons, Limits, Stores}
use kaf_katch.Notification.Detector.History.{Metric, store_of}
use kaf_katch.Notification.Watcher.{watch}
use kaf_katch.Notification.Watcher.Published.{RoundTrip, aggregates, verdicts}
use kaf_katch.Whole.{Group, received, AreMeasured}
use kaf_katch.Whole.Run.{all_windows, all_texts, IsReceived, watch-delivered}
use kaf_katch.Viewer.{notify}
use kaf_katch.Core.Serializers.{ObjectMapper}
use kaf_katch.Viewer.Polls.{Consumer, view}
use kaf_katch.Viewer.Sent.{AreSent, ReadsBack, KeepsUp, view-notify}

module _ {T : Type 0} (F : Double) (U : UtHash) (J : Jackson F.Carrier) (local_time : ℤ → T)
    (serdes : Serdes T F.Carrier) (net : Network) (C : Comparisons F) (limits : Limits F C) (m : ℕ)
    (size : limits.window_size ≡ pos m) (to_lower_case : List ℕ → List ℕ)
    (mapper : ObjectMapper Warning) (consumer : Consumer mapper) where
  -- From captured frames to toasts: whenever flush_worker rests, however the two threads
  -- interleaved, and however the windows that it closed are shared out, in their order, among the
  -- windows of the aggregation, the messages that these receive are exactly what Kafka was sent, in
  -- some order; there is one aggregate for each, which measures the packets captured in its
  -- windows; and after as many polls as there are warnings, or more, the toasts of the viewer are
  -- those of the verdicts on these aggregates, each by the last values before it, in their order and
  -- none twice. This is for at least one packet and fewer than 2 ^ 31 in a window of the
  -- aggregation, fewer than 2 ^ 31 payload bytes in one of the sniffer, if `%.1f` prints no
  -- more than 312 bytes, for stores that do not have the key of the aggregation yet, serializers
  -- that lose nothing, JSON that Jackson reads back (the messages, of the aggregates the three
  -- metrics, and the warnings), and a viewer that stands at the first of the warnings and whose polls
  -- go on where the next record can be read.
  pub view-delivered :
      (short : (d : F.Carrier) → length (F.print_1f d) ≤ 312) (quota : ℕ) {s : System F U}
      (groups : List (Group F J local_time serdes net)) (stores : Stores F C)
      (to_json_string : AggregatedFlow T → Option (List ℕ))
      (from_json_string : List ℕ → Option (AggregatedFlow T)) (rounds : ℕ) (viewer : consumer.State)
      → KeepsUp to_lower_case mapper consumer
      → Reaches F U (start F U net.net_ip net.net_mask quota) s
      → s.flusher ≡ resting
      → s.closed ≡ all_windows F U J local_time serdes net groups
      → IsFaithful serdes
      → All (IsReceived F U J local_time serdes net) groups
      → ((metric : Metric) → (store_of F C limits m size metric stores).rows global_key ≡ none)
      → All
          (RoundTrip to_json_string from_json_string)
          (aggregates J local_time serdes (received F J local_time serdes net groups))
      → AreSent to_lower_case mapper
          (watch F C limits from_json_string
            (publish J local_time serdes to_json_string (received F J local_time serdes net groups))
            stores).0
          (consumer.left viewer)
      → All
          (ReadsBack to_lower_case mapper)
          (watch F C limits from_json_string
            (publish J local_time serdes to_json_string (received F J local_time serdes net groups))
            stores).0
      → length (consumer.left viewer) ≤ rounds
      → Permᴰ (payloads s.world.calls) (all_texts F U J local_time serdes net groups)
        × AreMeasured F J local_time serdes net
            (aggregates J local_time serdes (received F J local_time serdes net groups))
            groups
        × ((view mapper to_lower_case consumer rounds viewer).0
            ≡ map (notify to_lower_case) (
                verdicts F C limits m size stores []
                  (aggregates J local_time serdes (received F J local_time serdes net groups))))
  view-delivered short quota groups stores to_json_string from_json_string rounds viewer keeps r e
        shared whole h fresh trips sent back enough =
      let (texts, warnings, measured) =
        watch-delivered F U J local_time serdes net C limits m size short quota groups stores
          to_json_string from_json_string r e shared whole h fresh trips in
      (
        texts,
        measured,
        view-notify to_lower_case mapper consumer rounds viewer _ keeps sent back enough
            ∙ ap (map (notify to_lower_case)) warnings,
      )
