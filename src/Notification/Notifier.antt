-- ===== src/Notification/Notifier.antt =====
-- kafkatch-notification/src/main/java/br/ufes/edu/Notifier.java: a sample of the last aggregates
-- with sums and records, and alerts beyond fixed limits.
pub mod Sample
use kaf_katch.Prelude.{
  ℕ, suc, ◌≡◌, refl, Bool, true, false, ◌||◌, not, Option, none, some, if◌then◌else◌, List, [], ◌∷◌,
  ◌++◌, length,
}
use kaf_katch.Prelude.Int.{ℤ, pos, negsuc, ◌+ℤ◌, ◌-ℤ◌, ltb_ℤ}
use kaf_katch.Text.{codes, join, signed}
use kaf_katch.Long.{to_int, to_long}
use kaf_katch.Core.Jackson.{map_option}
use kaf_katch.Core.Aggregate.{AggregatedFlow}

-- The limits are those that the constructor was given.
pub record Bounds : Type 0 where
  pub bytes_inbound_limit : ℤ
  pub bytes_outbound_limit : ℤ
  pub unique_flow_limit : ℤ

-- The oldest aggregate of the sample stands first; none is null.
pub record Notifier (T : Type 0) : Type 0 where
  pub aggregate_sample : List (Option (AggregatedFlow T))
  pub sample_max_size : ℤ
  pub bytes_inbound_sum : ℤ
  pub bytes_inbound_record : ℤ
  pub bytes_outbound_sum : ℤ
  pub bytes_outbound_record : ℤ
  pub unique_flow_sum : ℤ
  pub unique_flow_record : ℤ
  pub bounds : Bounds

-- `if (value > best) best = value;`
abbrev pub raised : (best value : ℤ) → ℤ
raised best value = if ltb_ℤ best value then value else best

module _ {T : Type 0} where
  unfoldable pub new_notifier : (sample_max_size : ℤ) → Bounds → Notifier T
  new_notifier sample_max_size bounds = record {
    aggregate_sample = [];
    sample_max_size = sample_max_size;
    bytes_inbound_sum = pos 0;
    bytes_inbound_record = negsuc 0;
    bytes_outbound_sum = pos 0;
    bytes_outbound_record = negsuc 0;
    unique_flow_sum = pos 0;
    unique_flow_record = negsuc 0;
    bounds = bounds;
  }

  -- A loop of updateRecords.
  unfoldable pub largest : (AggregatedFlow T → ℤ) → (best : ℤ) → List (AggregatedFlow T) → ℤ
  largest value best [] = best
  largest value best (a ∷ aggs) = largest value (raised best (value a)) aggs

  -- The aggregates of a sample, none if there is a null in it.
  abbrev pub present : List (Option (AggregatedFlow T)) → Option (List (AggregatedFlow T))
  present [] = some []
  present (none ∷ sample) = none
  present (some a ∷ sample) = map_option (λ aggs. a ∷ aggs) (present sample)

  -- A method gives the notifier as it leaves it, and whether it returns: false if it throws a
  -- NullPointerException.
  abbrev pub looked_up : Notifier T → Option (List (AggregatedFlow T)) → Notifier T × Bool
  looked_up n none = (n, false)
  looked_up n (some aggs) = (
    record n {
      bytes_inbound_record = largest (λ a. a.bytes_inbound) (negsuc 0) aggs;
      bytes_outbound_record = largest (λ a. a.bytes_outbound) (negsuc 0) aggs;
      unique_flow_record = largest (λ a. a.unique_flow_count) (negsuc 0) aggs;
    },
    true,
  )

  -- The records are set behind the loop.
  abbrev pub update_records : Notifier T → Notifier T × Bool
  update_records n = looked_up n (present n.aggregate_sample)

  abbrev pub add_newest : AggregatedFlow T → Notifier T → Notifier T
  add_newest newest n = record n {
    aggregate_sample = n.aggregate_sample ++ some newest ∷ [];
    bytes_inbound_record = raised n.bytes_inbound_record newest.bytes_inbound;
    bytes_outbound_record = raised n.bytes_outbound_record newest.bytes_outbound;
    unique_flow_record = raised n.unique_flow_record newest.unique_flow_count;
    bytes_inbound_sum = to_long (n.bytes_inbound_sum +ℤ newest.bytes_inbound);
    bytes_outbound_sum = to_long (n.bytes_outbound_sum +ℤ newest.bytes_outbound);
    unique_flow_sum = to_int (n.unique_flow_sum +ℤ newest.unique_flow_count);
  }

  -- Whether an aggregate holds one of the records.
  abbrev pub holds_record : AggregatedFlow T → Notifier T → Bool
  holds_record a n =
      not (ltb_ℤ a.bytes_inbound n.bytes_inbound_record)
      || not (ltb_ℤ a.bytes_outbound n.bytes_outbound_record)
      || not (ltb_ℤ a.unique_flow_count n.unique_flow_record)

  abbrev pub take_off : AggregatedFlow T → Notifier T → Notifier T
  take_off oldest n = record n {
    bytes_inbound_sum = to_long (n.bytes_inbound_sum +ℤ to_long (pos 0 -ℤ oldest.bytes_inbound));
    bytes_outbound_sum = to_long (n.bytes_outbound_sum +ℤ to_long (pos 0 -ℤ oldest.bytes_outbound));
    unique_flow_sum = to_int (n.unique_flow_sum +ℤ to_int (pos 0 -ℤ oldest.unique_flow_count));
  }

  abbrev pub renew : Bool → Notifier T → Notifier T × Bool
  renew true n = update_records n
  renew false n = (n, true)

  abbrev pub taken_off : AggregatedFlow T → Notifier T × Bool → Notifier T × Bool
  taken_off oldest (n, true) = (take_off oldest n, true)
  taken_off oldest (n, false) = (n, false)

  -- Behind `remove(0)`.
  abbrev pub removed : Option (AggregatedFlow T) → Notifier T → Notifier T × Bool
  removed none n = (n, false)
  removed (some oldest) n = taken_off oldest (renew (holds_record oldest n) n)

  -- The sample is not empty here: it has the newest aggregate.
  unfoldable pub drop_oldest : List (Option (AggregatedFlow T)) → Notifier T → Notifier T × Bool
  drop_oldest [] n = (n, true)
  drop_oldest (oldest ∷ rest) n =
      if ltb_ℤ n.sample_max_size (pos (suc (length rest)))
      then removed oldest (record n { aggregate_sample = rest })
      else (n, true)

  -- A null is in the sample before it is read.
  unfoldable pub add_aggregate_sample : Option (AggregatedFlow T) → Notifier T → Notifier T × Bool
  unfolding drop_oldest
  add_aggregate_sample none n =
      (record n { aggregate_sample = n.aggregate_sample ++ none ∷ [] }, false)
  add_aggregate_sample (some newest) n =
      let grown = add_newest newest n in drop_oldest grown.aggregate_sample grown

  -- The toasts of an aggregate: the title and the text.
  abbrev pub anomalies : AggregatedFlow T → Bounds → List (List ℕ × List ℕ)
  anomalies a b =
      (if ltb_ℤ b.bytes_inbound_limit a.bytes_inbound
        then (
          codes "Alerta de bytes recebidos",
          join (
              codes "O último agregado registrou "
              ∷ signed a.bytes_inbound
              ∷ codes " bytes recebidos"
              ∷ []),
        )
          ∷ []
        else [])
      ++ ((if ltb_ℤ b.bytes_outbound_limit a.bytes_outbound
            then (
              codes "Alerta de bytes enviados",
              join (
                  codes "O último agregado registrou "
                  ∷ signed a.bytes_outbound
                  ∷ codes " bytes enviados"
                  ∷ []),
            )
              ∷ []
            else [])
          ++ (if ltb_ℤ b.unique_flow_limit a.unique_flow_count
              then (
                codes "Alerta de número de conexões",
                join (
                    codes "O último agregado registrou "
                    ∷ signed a.unique_flow_count
                    ∷ codes " conexões"
                    ∷ []),
              )
                ∷ []
              else []))

  -- The newest of a sample: none for null, and if there is none, where `get` throws.
  abbrev pub newest_of : List (Option (AggregatedFlow T)) → Option (AggregatedFlow T)
  newest_of [] = none
  newest_of (o ∷ []) = o
  newest_of (a ∷ b ∷ aggs) = newest_of (b ∷ aggs)

  abbrev pub check_newest : Option (AggregatedFlow T) → Bounds → Option (List (List ℕ × List ℕ))
  check_newest none b = none
  check_newest (some a) b = some (anomalies a b)

  unfoldable pub check_for_anomalies : Notifier T → Option (List (List ℕ × List ℕ))
  check_for_anomalies n = check_newest (newest_of n.aggregate_sample) n.bounds
