-- ===== src/Samples/Alerts.antt =====
-- Concrete inputs for the alerts: stores, comparisons and limits, and texts of aggregates.
use kaf_katch.Prelude.{
  ◌/◌, ap, ℕ, ◌≡◌, refl, arith, ◌∷◌, [], Option, none, some, if◌then◌else◌, List, Bool, All, true,
  false,
}
use kaf_katch.Prelude.Int.{ℤ, pos, negsuc, pos_part, neg_part, sub_ℕ, ltb_ℤ, ◌-ℤ◌}
use kaf_katch.Core.Aggregate.{AggregatedFlow, new_aggregate}
use kaf_katch.Notification.Detector.{Comparisons, Limits, Store, Stores}
use kaf_katch.Notification.Detector.History.{Metric, inbound, outbound, flows, value_of}
use kaf_katch.Notification.Watcher.Published.{RoundTrip}
use kaf_katch.Notification.Detector.Steady.{IsExactQuotient}
use kaf_katch.Double.{Double}
use native.Mathlib.Nat.{mul-div_cancel_left}
use kaf_katch.Samples.{int_double}

-- The metrics of an aggregate, as a text that only the two functions here read and write.
abbrev pub write_metrics : AggregatedFlow ℤ → Option (List ℕ)
write_metrics agg = some (
    pos_part agg.bytes_inbound
    ∷ neg_part agg.bytes_inbound
    ∷ pos_part agg.bytes_outbound
    ∷ neg_part agg.bytes_outbound
    ∷ pos_part agg.unique_flow_count
    ∷ neg_part agg.unique_flow_count
    ∷ [])

abbrev pub read_metrics : List ℕ → Option (AggregatedFlow ℤ)
read_metrics (a ∷ b ∷ c ∷ d ∷ e ∷ f ∷ []) = some (record (new_aggregate (pos 0)) {
  bytes_inbound = sub_ℕ a b;
  bytes_outbound = sub_ℕ c d;
  unique_flow_count = sub_ℕ e f;
})
read_metrics text = none

sub_ℕ_parts : (z : ℤ) → sub_ℕ (pos_part z) (neg_part z) ≡ z
sub_ℕ_parts (pos n) = ground arith
sub_ℕ_parts (negsuc n) = ground arith

-- What is read back.
abbrev pub metrics_of : AggregatedFlow ℤ → AggregatedFlow ℤ
metrics_of agg = record (new_aggregate (pos 0)) {
  bytes_inbound = sub_ℕ (pos_part agg.bytes_inbound) (neg_part agg.bytes_inbound);
  bytes_outbound = sub_ℕ (pos_part agg.bytes_outbound) (neg_part agg.bytes_outbound);
  unique_flow_count = sub_ℕ (pos_part agg.unique_flow_count) (neg_part agg.unique_flow_count);
}

metrics_of-same :
    (agg : AggregatedFlow ℤ) (metric : Metric)
    → value_of metric (metrics_of agg) ≡ value_of metric agg
metrics_of-same agg inbound = sub_ℕ_parts agg.bytes_inbound
metrics_of-same agg outbound = sub_ℕ_parts agg.bytes_outbound
metrics_of-same agg flows = sub_ℕ_parts agg.unique_flow_count

pub metrics-RoundTrip : (agg : AggregatedFlow ℤ) → RoundTrip write_metrics read_metrics agg
metrics-RoundTrip agg = record {
  json = _;
  back = metrics_of agg;
  writes = refl;
  reads = refl;
  same = metrics_of-same agg;
}

abbrev pub comparisons : Comparisons int_double
comparisons = record {
  lt = ltb_ℤ;
  le = λ a b. if ltb_ℤ b a then Bool.false else Bool.true;
  sub = λ a b. a -ℤ b;
  round = λ z. z;
}

abbrev pub limits : Limits int_double comparisons
limits = record {
  window_size = pos 20;
  ratio_regular = pos 1;
  ratio_media = pos 2;
  ratio_alta = pos 3;
}

abbrev pub empty_store : Store
empty_store = record { rows = λ key. none; broken = false }

-- The store of the outbound bytes is broken.
abbrev pub half_broken : Stores int_double comparisons
half_broken = record {
  inbound = empty_store;
  outbound = record { rows = λ key. none; broken = true };
  flows = empty_store;
}

abbrev pub quiet : AggregatedFlow ℤ
quiet = new_aggregate (pos 0)

pub All-RoundTrip :
    (aggs : List (AggregatedFlow ℤ)) → All (RoundTrip write_metrics read_metrics) aggs
All-RoundTrip [] = tt
All-RoundTrip (agg ∷ aggs) = (metrics-RoundTrip agg, All-RoundTrip aggs)

abbrev div_ℤ : ℤ → ℤ → ℤ
div_ℤ (pos a) (pos b) = pos (a / b)
div_ℤ (pos a) (negsuc b) = pos 0
div_ℤ (negsuc a) b = pos 0

-- Doubles with whole quotients.
abbrev pub whole_double : Double
whole_double = record int_double { div = div_ℤ }

abbrev pub whole_comparisons : Comparisons whole_double
whole_comparisons = record {
  lt = ltb_ℤ;
  le = λ a b. if ltb_ℤ b a then Bool.false else Bool.true;
  sub = λ a b. a -ℤ b;
  round = λ z. z;
}

pub whole-IsExactQuotient : IsExactQuotient whole_double whole_comparisons
whole-IsExactQuotient = record {
  div_whole = λ n k some_n fits. ap pos (mul-div_cancel_left k some_n);
  lt_whole = λ k fits. ground arith;
}

-- Limits above the ratio 1.
abbrev pub whole_limits : Limits whole_double whole_comparisons
whole_limits = record {
  window_size = pos 20;
  ratio_regular = pos 2;
  ratio_media = pos 3;
  ratio_alta = pos 4;
}
