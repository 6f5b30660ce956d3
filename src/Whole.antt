-- ===== src/Whole.antt =====
-- The sniffer, the aggregation and the detector together: from captured packets (sniffer/src/flow.c)
-- to the warnings of OutputWatcher (kafkatch-notification).
pub mod Run
pub mod Toasts
use kaf_katch.Prelude.{ℕ, ◌≡◌, sym, subst, Option, none, List, [], ◌∷◌, map, All, kept, Permᴰ}
use kaf_katch.Prelude.Int.{ℤ, pos}
use kaf_katch.Double.{Double}
use kaf_katch.Sniffer.Stats.{PktStats}
use kaf_katch.Sniffer.Window.{Network}
use kaf_katch.Sniffer.Window.Series.{packets_of, flows_of}
use kaf_katch.Core.Jackson.{Jackson}
use kaf_katch.Core.Parser.Message.{flow_value, Reads}
use kaf_katch.Core.Readable.{IsSeries}
use kaf_katch.Core.Aggregate.{AggregatedFlow, Serdes, IsFaithful, Event}
use kaf_katch.Core.Publish.{global_key, publish}
use kaf_katch.Core.Measures.{Measures}
use kaf_katch.Core.Sent.{Sent, events, sent_flows}
use kaf_katch.Core.Pipeline.{aggregate-Measures}
use kaf_katch.Notification.Detector.{Comparisons, Limits, Stores}
use kaf_katch.Notification.Detector.History.{Metric, store_of}
use kaf_katch.Notification.Watcher.{watch}
use kaf_katch.Notification.Watcher.Published.{RoundTrip, aggregates, verdicts, watch-publish}

module _ {T : Type 0} (F : Double) (J : Jackson F.Carrier) (local_time : ℤ → T)
    (serdes : Serdes T F.Carrier) (net : Network) where
  -- The windows of the sniffer whose messages come into one window of the aggregation, and these
  -- messages as they are received.
  pub record Group : Type 0 where
    pub windows : List (List PktStats)
    pub sent : List (Sent F J local_time serdes)

  -- The messages are those of the windows, in some order, and are read as JSON.
  pub record IsGroup (g : Group) : Type 0 where
    pub series : IsSeries net g.windows
    pub order : Permᴰ (flows_of F net g.windows) (sent_flows F J local_time serdes g.sent)
    pub reads : All (λ f. Reads F J local_time (flow_value F f)) (flows_of F net g.windows)

  abbrev pub received : List Group → List (List (Event T))
  received groups = map (λ g. events F J local_time serdes g.sent) groups

  -- One aggregate for each group, which measures its packets.
  abbrev pub AreMeasured : List (AggregatedFlow T) → List Group → Type 0
  AreMeasured [] [] = Unit
  AreMeasured (agg ∷ aggs) (g ∷ groups) =
      Measures F net agg (packets_of g.windows) × AreMeasured aggs groups
  AreMeasured aggs groups = ⊥

  aggregates-AreMeasured :
      IsFaithful serdes
      → (groups : List Group) → All IsGroup groups
      → AreMeasured (aggregates J local_time serdes (received groups)) groups
  aggregates-AreMeasured whole [] h = tt
  aggregates-AreMeasured whole (g ∷ groups) h =
      let (agg, made, measured) =
        aggregate-Measures F J local_time serdes net g.windows g.sent whole h.0.series h.0.reads
          h.0.order in
      subst
        (λ o. AreMeasured (kept o (aggregates J local_time serdes (received groups))) (g ∷ groups))
        (sym made) (measured, aggregates-AreMeasured whole groups h.1)

  module _ (C : Comparisons F) (limits : Limits F C) (m : ℕ)
      (size : limits.window_size ≡ pos m) where
    -- From packets to warnings: for any series of windows of the aggregation, each with the messages of
    -- some windows of the sniffer in some order, there is one aggregate for each, which measures the
    -- captured packets, and the warnings that OutputWatcher sends are the verdicts on these aggregates
    -- in order, each by the last values before it. This is for stores that do not have the key of the
    -- aggregation yet, serializers that lose nothing, packets within the bounds of IsSeries, and JSON
    -- that Jackson reads back: the messages, and of the aggregates the three metrics.
    pub watch-measured :
        (groups : List Group) (stores : Stores F C)
        (to_json_string : AggregatedFlow T → Option (List ℕ))
        (from_json_string : List ℕ → Option (AggregatedFlow T))
        → IsFaithful serdes
        → All IsGroup groups
        → ((metric : Metric) → (store_of F C limits m size metric stores).rows global_key ≡ none)
        → All
            (RoundTrip to_json_string from_json_string)
            (aggregates J local_time serdes (received groups))
        → ((watch F C limits from_json_string
              (publish J local_time serdes to_json_string (received groups))
              stores).0
            ≡ verdicts F C limits m size stores []
                (aggregates J local_time serdes (received groups)))
          × AreMeasured (aggregates J local_time serdes (received groups)) groups
    watch-measured groups stores to_json_string from_json_string whole h fresh trips = (
      watch-publish F C limits m size J local_time serdes to_json_string from_json_string stores
          (received groups) fresh trips,
      aggregates-AreMeasured whole groups h,
    )
