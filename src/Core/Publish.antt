-- ===== src/Core/Publish.antt =====
-- kafkatch-core/src/main/java/br/ufes/edu/App.java: what is sent when the windows close, in the order
-- in which they do.
use kaf_katch.Prelude.{ℕ, Option, none, some, List, [], ◌∷◌, ◌++◌}
use kaf_katch.Prelude.Int.{ℤ}
use kaf_katch.Text.{codes}
use kaf_katch.Core.Jackson.{Jackson}
use kaf_katch.Core.Aggregate.{AggregatedFlow, Serdes, Event, aggregate}

-- A record of a topic, whose key may be null.
pub record Message : Type 0 where
  pub key : Option (List ℕ)
  pub value : List ℕ

abbrev pub global_key : List ℕ
global_key = codes "global-key"

-- `to_json_string` is AggregatedFlowParser.toJsonString, which calls Jackson: none where it throws.
module _ {T D : Type 0} (J : Jackson D) (local_time : ℤ → T) (serdes : Serdes T D)
    (to_json_string : AggregatedFlow T → Option (List ℕ)) where
  -- An exception makes a null, which is filtered out.
  abbrev pub written : Option (List ℕ) → List Message
  written none = []
  written (some json) = record { key = some global_key; value = json } ∷ []

  -- A window without a flow has no aggregate and does not close.
  abbrev pub closed_window : Option (AggregatedFlow T) → List Message
  closed_window none = []
  closed_window (some agg) = written (to_json_string agg)

  unfoldable pub publish : List (List (Event T)) → List Message
  publish [] = []
  publish (events ∷ windows) =
      closed_window (aggregate J local_time serdes events) ++ publish windows
