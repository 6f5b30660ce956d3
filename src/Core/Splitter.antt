-- ===== src/Core/Splitter.antt =====
-- kafkatch-core/src/main/java/br/ufes/edu/Splitter.java: the topology that takes the published
-- aggregates apart.
use kaf_katch.Prelude.{
  ℕ, ◌≡◌, refl, ap, Bool, true, false, Option, none, some, if◌then◌else◌, List, [], ◌∷◌, ◌++◌, All,
  kept, All-kept,
}
use mathlib.Core.List.{append_assoc, append-nil}
use kaf_katch.Prelude.Int.{ℤ}
use kaf_katch.Text.{codes}
use kaf_katch.Core.Flow.{text_eq}
use kaf_katch.Core.Jackson.{Jackson}
use kaf_katch.Core.Aggregate.{AggregatedFlow, Serdes, Event, aggregate}
use kaf_katch.Core.Publish.{Message, closed_window, publish}
use kaf_katch.Notification.Detector.History.{Metric, inbound, outbound, flows, value_of}
use kaf_katch.Notification.Watcher.Published.{RoundTrip, aggregates}

-- A record of one of the three topics network-summary-bytes-inbound, network-summary-bytes-outbound
-- and network-summary-unique-flow-count.
pub record Summary : Type 0 where
  pub topic : Metric
  pub key : List ℕ
  pub value : ℤ

-- `key.startsWith(prefix)`
abbrev pub starts_with : (prefix key : List ℕ) → Bool
starts_with [] key = true
starts_with (c ∷ prefix) [] = false
starts_with (c ∷ prefix) (d ∷ key) =
    if text_eq (c ∷ []) (d ∷ []) then starts_with prefix key else false

-- The branch of a pair, of which the others are dropped.
abbrev pub branch : (key : List ℕ) → ℤ → List Summary
branch key value =
    if starts_with (codes "in") key
    then record { topic = inbound; key = key; value = value } ∷ []
    else if starts_with (codes "out") key
    then record { topic = outbound; key = key; value = value } ∷ []
    else []

-- The pairs of flatMap, by their branches, and that of map.
unfoldable pub split_aggregate : {T : Type 0} → AggregatedFlow T → List Summary
split_aggregate value =
    branch (codes "in") value.bytes_inbound
    ++ (branch (codes "out") value.bytes_outbound
        ++ record { topic = flows; key = codes "flow"; value = value.unique_flow_count } ∷ [])

-- `from_json_string` is AggregatedFlowParser.fromJsonString: none for null and where it throws.
module _ {T : Type 0} (from_json_string : List ℕ → Option (AggregatedFlow T)) where
  -- What is sent for a message and those behind it, and whether the topology still runs: for an
  -- aggregate of null, flatMap throws a NullPointerException, which ends its thread.
  abbrev pub split_value : Option (AggregatedFlow T) → List Summary × Bool → List Summary × Bool
  split_value none later = ([], false)
  split_value (some value) later = (split_aggregate value ++ later.0, later.1)

  unfoldable pub split : List Message → List Summary × Bool
  split [] = ([], true)
  split (m ∷ messages) = split_value (from_json_string m.value) (split messages)

  -- Three records for each aggregate.
  abbrev pub summaries : List (AggregatedFlow T) → List Summary
  summaries [] = []
  summaries (agg ∷ aggs) =
      record { topic = inbound; key = codes "in"; value = agg.bytes_inbound }
      ∷ record { topic = outbound; key = codes "out"; value = agg.bytes_outbound }
      ∷ record { topic = flows; key = codes "flow"; value = agg.unique_flow_count }
      ∷ summaries aggs

  split_aggregate-same :
      (back agg : AggregatedFlow T)
      → ((metric : Metric) → value_of metric back ≡ value_of metric agg)
      → split_aggregate back ≡ summaries (agg ∷ [])
  unfolding split_aggregate
  split_aggregate-same back agg same = rw (same inbound, same outbound, same flows)

  split-unread :
      (bad : Message) (rest : List Message)
      → from_json_string bad.value ≡ none
      → split (bad ∷ rest) ≡ ([], false)
  unfolding split
  split-unread bad rest fails = ap (λ o. split_value o (split rest)) fails

  module _ {D : Type 0} (J : Jackson D) (local_time : ℤ → T) (serdes : Serdes T D)
      (to_json_string : AggregatedFlow T → Option (List ℕ)) where
    -- One window more in front of some messages.
    split-closed_window :
        (o : Option (AggregatedFlow T)) (messages : List Message) (aggs : List (AggregatedFlow T))
        (sent : List Summary) (runs : Bool)
        → All (RoundTrip to_json_string from_json_string) (kept o aggs)
        → split messages ≡ (summaries aggs ++ sent, runs)
        → split (closed_window J local_time serdes to_json_string o ++ messages)
          ≡ (summaries (kept o aggs) ++ sent, runs)
    unfolding split
    split-closed_window none messages aggs sent runs h e = e
    split-closed_window (some agg) messages aggs sent runs h e =
        let now = h.0 in
        rw (now.writes, now.reads, split_aggregate-same now.back agg now.same, e) refl

    split-publish :
        (windows : List (List (Event T))) (rest : List Message)
        → All (RoundTrip to_json_string from_json_string) (aggregates J local_time serdes windows)
        → split (publish J local_time serdes to_json_string windows ++ rest)
          ≡ (summaries (aggregates J local_time serdes windows) ++ (split rest).0, (split rest).1)
    unfolding publish
    split-publish [] rest h = refl
    split-publish (events ∷ windows) rest h =
        let o = aggregate J local_time serdes events in
        rw
          (append_assoc (closed_window J local_time serdes to_json_string o)
            (publish J local_time serdes to_json_string windows) rest)
          (split-closed_window o _ (aggregates J local_time serdes windows) (split rest).0
            (split rest).1 h (split-publish windows rest (All-kept _ o _ h)))

    -- One message that cannot be read ends Splitter, whatever comes behind it: for what App has
    -- published of any windows, with such a message behind it, three records are sent for each
    -- aggregate, in order, with its bytes by direction and its unique flows, and none for any
    -- message after that. This is for aggregates of which the JSON is written and read back with
    -- the same three metrics.
    pub split-until :
        (windows : List (List (Event T))) (bad : Message) (rest : List Message)
        → All (RoundTrip to_json_string from_json_string) (aggregates J local_time serdes windows)
        → from_json_string bad.value ≡ none
        → split (publish J local_time serdes to_json_string windows ++ bad ∷ rest)
          ≡ (summaries (aggregates J local_time serdes windows), false)
    split-until windows bad rest h fails =
        rw (split-publish windows (bad ∷ rest) h, split-unread bad rest fails)
          (ap (λ l. (l, false)) (append-nil (summaries (aggregates J local_time serdes windows))))
