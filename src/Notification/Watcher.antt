-- ===== src/Notification/Watcher.antt =====
-- kafkatch-notification/src/main/java/br/ufes/edu/OutputWatcher.java: from the messages of the
-- aggregation to the warnings, in the order of the messages.
pub mod Published
pub mod Steady
use kaf_katch.Prelude.{ℕ, Option, none, some, List, [], ◌∷◌, ◌++◌}
use kaf_katch.Double.{Double}
use kaf_katch.Core.Aggregate.{AggregatedFlow}
use kaf_katch.Core.Publish.{Message}
use kaf_katch.Notification.Detector.{Warning, Comparisons, Limits, Stores, transform}

-- `from_json_string` is AggregatedFlowParser.fromJsonString, which calls Jackson: none for null and
-- for an exception, which the topology catches.
module _ (F : Double) (C : Comparisons F) (limits : Limits F C) {T : Type 0}
    (from_json_string : List ℕ → Option (AggregatedFlow T)) where
  -- A message that cannot be read is filtered out before the detector.
  abbrev pub watch_parsed :
      Option (List ℕ) → Option (AggregatedFlow T) → Stores F C → List Warning × Stores F C
  watch_parsed key none stores = ([], stores)
  watch_parsed key (some agg) stores = transform F C limits key (some agg) stores

  -- The warnings that are sent, and the stores after them.
  unfoldable pub watch : List Message → Stores F C → List Warning × Stores F C
  watch [] stores = ([], stores)
  watch (m ∷ messages) stores =
      let now = watch_parsed m.key (from_json_string m.value) stores in
      let later = watch messages now.1 in (now.0 ++ later.0, later.1)
