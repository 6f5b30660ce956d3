-- ===== src/Notification/Watcher/Steady.antt =====
-- The aggregation and the detector together on traffic that does not change.
use kaf_katch.Prelude.{
  ℕ, ◌*◌, ◌^◌, ◌≤◌, ◌<◌, ◌≡◌, refl, ap, ◌∙◌, ltb, leb, ◌&&◌, Bool, true, false, if◌then◌else◌,
  Option, none, List, [], ◌∷◌, length, All, arith,
}
use native.Mathlib.Nat.{mul-le-mul_right}
use kaf_katch.Prelude.Int.{ℤ, pos}
use kaf_katch.Double.{Double}
use kaf_katch.Core.Jackson.{Jackson}
use kaf_katch.Core.Aggregate.{AggregatedFlow, Serdes, Event}
use kaf_katch.Core.Publish.{global_key, publish}
use kaf_katch.Notification.Detector.{Warning, Comparisons, Limits, Stores, grade}
use kaf_katch.Notification.Detector.History.{Metric, inbound, outbound, flows, store_of, expected}
use kaf_katch.Notification.Detector.Steady.{IsExactQuotient, AreLevel, expected-AreLevel}
use kaf_katch.Notification.Watcher.{watch}
use kaf_katch.Notification.Watcher.Published.{RoundTrip, aggregates, verdicts, watch-publish}

-- Limits that the ratio 1 does not reach.
pub record AreAboveOne (F : Double) (C : Comparisons F) (limits : Limits F C) : Type 0 where
  pub regular : C.le limits.ratio_regular (F.of_int (pos 1)) ≡ false
  pub media : C.le limits.ratio_media (F.of_int (pos 1)) ≡ false
  pub alta : C.le limits.ratio_alta (F.of_int (pos 1)) ≡ false

module _ (F : Double) (C : Comparisons F) (exact : IsExactQuotient F C) (limits : Limits F C)
    (m : ℕ) (size : limits.window_size ≡ pos m) (above : AreAboveOne F C limits)
    (three : 3 ≤ m) where
  ratio_one :
      (k : ℕ) → 0 < k → k ≤ 2 ^ 53 → F.div (F.of_int (pos k)) (F.of_int (pos k)) ≡ F.of_int (pos 1)
  ratio_one k some_k fits =
      let once : k ≡ k * 1 = omega arith in
      ap (λ n. F.div (F.of_int (pos n)) (F.of_int (pos k))) once
      ∙ exact.div_whole k 1 some_k (omega arith)

  grade-one : (text : List ℕ) → grade F C limits (F.of_int (pos 1)) text ≡ []
  unfolding grade
  grade-one text = rw (above.alta, above.media, above.regular) refl

  if-nil :
      (b : Bool) (warnings : List Warning)
      → (b ≡ true → warnings ≡ [])
      → (if b then warnings else []) ≡ []
  if-nil true warnings h = h refl
  if-nil false warnings h = refl

  expected-nil :
      {T : Type 0} (metric : Metric) (k : ℕ) (broken : Bool) (aggs : List (AggregatedFlow T))
      (agg : AggregatedFlow T)
      → AreLevel metric k (agg ∷ aggs)
      → m * k ≤ 2 ^ 53
      → expected F C limits m size metric broken aggs agg ≡ []
  expected-nil metric k true aggs agg level fits = refl
  expected-nil metric k false aggs agg level fits =
      let once : 3 * k ≤ m * k = mul-le-mul_right k three in
      expected-AreLevel F C exact limits m size metric k aggs agg level.1 three fits
      ∙ if-nil (leb 3 (length aggs) && ltb 0 k) _
          (λ judged. rw (level.0, ratio_one k (ground (arith, judged)) (omega arith)) (grade-one _))

  module _ {T : Type 0} (stores : Stores F C) (levels : Metric → ℕ)
      (fit : (metric : Metric) → m * levels metric ≤ 2 ^ 53) where
    verdicts-nil :
        (before aggs : List (AggregatedFlow T))
        → ((metric : Metric) → AreLevel metric (levels metric) before)
        → ((metric : Metric) → AreLevel metric (levels metric) aggs)
        → verdicts F C limits m size stores before aggs ≡ []
    unfolding verdicts
    verdicts-nil before [] h k = refl
    verdicts-nil before (agg ∷ aggs) h k =
        let none_by : (metric : Metric)
            → expected F C limits m size metric (store_of F C limits m size metric stores).broken
                before agg
              ≡ [] =
          λ metric.
            expected-nil metric (levels metric) _ before agg ((k metric).0, h metric)
              (fit metric) in
        rw (none_by inbound, none_by outbound, none_by flows)
          (verdicts-nil (agg ∷ before) aggs (λ metric. ((k metric).0, h metric))
            (λ metric. (k metric).1))

    -- Steady traffic raises no alarm: as long as the three metrics of the published aggregates stay
    -- what they are, OutputWatcher sends no warning at all. This is for limits above the ratio 1, a
    -- window of at least three values with sums of at most 2 ^ 53, exact quotients, and what
    -- watch-publish needs of the stores and of the JSON.
    pub watch-steady :
        {D : Type 0} (J : Jackson D) (local_time : ℤ → T) (serdes : Serdes T D)
        (to_json_string : AggregatedFlow T → Option (List ℕ))
        (from_json_string : List ℕ → Option (AggregatedFlow T)) (windows : List (List (Event T)))
        → ((metric : Metric) → (store_of F C limits m size metric stores).rows global_key ≡ none)
        → All (RoundTrip to_json_string from_json_string) (aggregates J local_time serdes windows)
        → ((metric : Metric)
            → AreLevel metric (levels metric) (aggregates J local_time serdes windows))
        → (watch F C limits from_json_string
            (publish J local_time serdes to_json_string windows)
            stores).0
          ≡ []
    watch-steady J local_time serdes to_json_string from_json_string windows fresh trips level =
        watch-publish F C limits m size J local_time serdes to_json_string from_json_string stores
          windows fresh trips
        ∙ verdicts-nil [] (aggregates J local_time serdes windows) (λ metric. tt) level
