-- ===== src/Notification/Detector/History.antt =====
-- The detector of AnomalyDetectorTransformer.java over a series of aggregates of one key, by metric.
use kaf_katch.Prelude.{
  ℕ, ◌≡◌, refl, sym, ap, ap₂, ◌∙◌, Bool, true, false, Option, none, some, List, [], ◌∷◌, ◌++◌,
  arith,
}
use kaf_katch.Prelude.Int.{ℤ, pos}
use kaf_katch.Double.{Double}
use kaf_katch.Text.{codes}
use kaf_katch.Core.Flow.{text_eq_iff}
use kaf_katch.Core.Aggregate.{AggregatedFlow}
use kaf_katch.Notification.Rolling.{RollingStats, new_rolling, rolled, add-rolled, rolled-nil}
use kaf_katch.Notification.Detector.{
  Warning, Store, put, Comparisons, Limits, Stores, alerts, or_new, check, caught, transform,
}

-- The three metrics of an aggregate.
pub data Metric : Type 0 where
  inbound outbound flows : Metric

abbrev pub value_of : {T : Type 0} → Metric → AggregatedFlow T → ℤ
value_of inbound agg = agg.bytes_inbound
value_of outbound agg = agg.bytes_outbound
value_of flows agg = agg.unique_flow_count

abbrev pub label_of : Metric → List ℕ
label_of inbound = codes "bytes recebidos"
label_of outbound = codes "bytes enviados"
label_of flows = codes "conexões únicas"

-- The values of a metric, the oldest first, of aggregates with the newest first.
abbrev pub series : {T : Type 0} → Metric → List (AggregatedFlow T) → List ℤ
series metric [] = []
series metric (agg ∷ aggs) = series metric aggs ++ value_of metric agg ∷ []

module _ (F : Double) (C : Comparisons F) (limits : Limits F C) (m : ℕ)
    (size : limits.window_size ≡ pos m) where
  abbrev pub store_of : Metric → Stores F C → Store
  store_of inbound stores = stores.inbound
  store_of outbound stores = stores.outbound
  store_of flows stores = stores.flows

  -- What a store holds of a series: nothing for the empty one.
  abbrev pub row : List ℤ → Option RollingStats
  row [] = none
  row (v ∷ vs) = some (rolled m (v ∷ vs))

  row-append : (vs : List ℤ) (v : ℤ) → row (vs ++ v ∷ []) ≡ some (rolled m (vs ++ v ∷ []))
  row-append [] v = refl
  row-append (w ∷ vs) v = refl

  or_new-row : (vs : List ℤ) → or_new F C limits (row vs) ≡ rolled m vs
  or_new-row [] = ap new_rolling size ∙ sym (rolled-nil m)
  or_new-row (v ∷ vs) = refl

  -- A check in a sound store: the warnings compare the value with the series before it, and the
  -- series grows by the value.
  check_lem :
      (store : Store) (key : List ℕ) (vs : List ℤ) (v : ℤ) (label : List ℕ)
      → store.broken ≡ false
      → store.rows key ≡ row vs
      → check F C limits store key v label
        ≡ some (alerts F C limits (rolled m vs) v label, put store key (rolled m (vs ++ v ∷ [])))
  unfolding check
  check_lem store key vs v label sound e =
      let stats = ap (or_new F C limits) e ∙ or_new-row vs in rw (sound, stats, add-rolled m vs v)

  -- A store that has been given a series of values at a key, unless it is broken.
  record Remembers (key : List ℕ) (broken : Bool) (vs : List ℤ) (store : Store) : Type 0 where
    is_broken : store.broken ≡ broken
    holds_row : broken ≡ false → store.rows key ≡ row vs

  abbrev pub unless : Bool → List Warning → List Warning
  unless true warnings = []
  unless false warnings = warnings

  check-warnings :
      (key : List ℕ) (broken : Bool) (vs : List ℤ) (store : Store) (v : ℤ) (label : List ℕ)
      → Remembers key broken vs store
      → (caught F C limits store (check F C limits store key v label)).0
        ≡ unless broken (alerts F C limits (rolled m vs) v label)
  unfolding check
  check-warnings key true vs store v label r = rw r.is_broken
  check-warnings key false vs store v label r =
      ap (λ c. (caught F C limits store c).0)
        (check_lem store key vs v label r.is_broken (r.holds_row refl))

  check-Remembers :
      (key : List ℕ) (broken : Bool) (vs : List ℤ) (store : Store) (v : ℤ) (label : List ℕ)
      → Remembers key broken vs store
      → Remembers key broken
          (vs ++ v ∷ [])
          (caught F C limits store (check F C limits store key v label)).1
  unfolding check
  check-Remembers key true vs store v label r = record {
    is_broken = rw r.is_broken;
    holds_row = λ e. ground (arith, e);
  }
  check-Remembers key false vs store v label r =
      let e =
        ap (λ c. (caught F C limits store c).1)
          (check_lem store key vs v label r.is_broken (r.holds_row refl)) in
      let same = (text_eq_iff key key).1 refl in
      record {
        is_broken = ap (λ s. s.broken) e ∙ r.is_broken;
        holds_row = λ _. ap (λ s. s.rows key) e ∙ rw (same, row-append vs v);
      }

  module _ {T : Type 0} where
    -- The stores after the aggregates of one key, the newest first.
    unfoldable pub feed : (key : List ℕ) → List (AggregatedFlow T) → Stores F C → Stores F C
    feed key [] stores = stores
    feed key (agg ∷ aggs) stores =
        (transform F C limits (some key) (some agg) (feed key aggs stores)).1

    -- What the detector should say of the next aggregate by one metric, whose store may be broken.
    abbrev pub expected : Metric → Bool → List (AggregatedFlow T) → AggregatedFlow T → List Warning
    expected metric broken aggs agg =
        unless broken (
          alerts F C limits (rolled m (series metric aggs)) (value_of metric agg) (label_of metric))

    feed-Remembers :
        (metric : Metric) (key : List ℕ) (aggs : List (AggregatedFlow T)) (stores : Stores F C)
        → (store_of metric stores).rows key ≡ none
        → Remembers key
            (store_of metric stores).broken
            (series metric aggs)
            (store_of metric (feed key aggs stores))
    unfolding feed transform
    feed-Remembers metric key [] stores e = record { is_broken = refl; holds_row = λ _. e }
    feed-Remembers inbound key (agg ∷ aggs) stores e =
        check-Remembers key stores.inbound.broken (series inbound aggs) _ (value_of inbound agg)
          (label_of inbound) (feed-Remembers inbound key aggs stores e)
    feed-Remembers outbound key (agg ∷ aggs) stores e =
        check-Remembers key stores.outbound.broken (series outbound aggs) _ (value_of outbound agg)
          (label_of outbound) (feed-Remembers outbound key aggs stores e)
    feed-Remembers flows key (agg ∷ aggs) stores e =
        check-Remembers key stores.flows.broken (series flows aggs) _ (value_of flows agg)
          (label_of flows) (feed-Remembers flows key aggs stores e)

    -- The metrics are independent: after any aggregates of a key that was new to the stores, the
    -- warnings for the next one are those of the three metrics, in order, each from a comparison of
    -- its value with the last values of that metric alone, and none from a store that is broken.
    pub transform-warnings :
        (key : List ℕ) (aggs : List (AggregatedFlow T)) (agg : AggregatedFlow T)
        (stores : Stores F C)
        → ((metric : Metric) → (store_of metric stores).rows key ≡ none)
        → (transform F C limits (some key) (some agg) (feed key aggs stores)).0
          ≡ expected inbound stores.inbound.broken aggs agg
            ++ (expected outbound stores.outbound.broken aggs agg
                ++ expected flows stores.flows.broken aggs agg)
    unfolding transform
    transform-warnings key aggs agg stores fresh =
        ap₂ (λ xs ys. xs ++ ys)
          (check-warnings key stores.inbound.broken (series inbound aggs) _ (value_of inbound agg)
            (label_of inbound) (feed-Remembers inbound key aggs stores (fresh inbound)))
          (ap₂ (λ xs ys. xs ++ ys)
            (check-warnings key stores.outbound.broken (series outbound aggs) _
              (value_of outbound agg) (label_of outbound)
              (feed-Remembers outbound key aggs stores (fresh outbound)))
            (check-warnings key stores.flows.broken (series flows aggs) _ (value_of flows agg)
              (label_of flows) (feed-Remembers flows key aggs stores (fresh flows))))
