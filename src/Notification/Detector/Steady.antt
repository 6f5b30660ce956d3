-- ===== src/Notification/Detector/Steady.antt =====
-- The detector of AnomalyDetectorTransformer.java when the values before are all the same, where
-- its average is exact.
use kaf_katch.Prelude.{
  ℕ, zero, suc, ◌+◌, ◌-◌, ◌*◌, ◌^◌, ◌≤◌, ◌<◌, ◌≡◌, refl, sym, ap, ap₂, subst, ◌∙◌, ltb, leb, Bool,
  Bool-cases, inl, inr, true, false, ◌&&◌, if◌then◌else◌, none, some, List, [], ◌∷◌, ◌++◌, length,
  length-append, drop, All, All-append, arith,
}
use kaf_katch.Prelude.Int.{ℤ, pos, ◌+ℤ◌, +ℤ-pos}
use mathlib.Core.List.{Memᴰ}
use mathlib.Core.List.Memᴰ
use kaf_katch.Text.{codes}
use kaf_katch.Long.{to_long, to_long_exact}
use kaf_katch.Double.{Double}
use kaf_katch.Core.Aggregate.{AggregatedFlow}
use kaf_katch.Notification.Rolling.{average, last, total, rolled, length-drop, length-last}
use kaf_katch.Notification.Detector.{
  Warning, Comparisons, Limits, Stores, grade, descricao, alerts, transform,
}
use kaf_katch.Notification.Detector.History.{
  Metric, inbound, outbound, flows, value_of, label_of, series, store_of, feed, expected,
  transform-warnings,
}
use native.Mathlib.Nat.{mul-le-mul_right}

-- IEEE 754: a quotient of two integers that is a whole number of at most 53 bits is exact, and
-- integers that need no rounding compare as such.
pub record IsExactQuotient (F : Double) (C : Comparisons F) : Type 0 where
  pub div_whole :
      (n k : ℕ)
      → 0 < n
      → n * k ≤ 2 ^ 53
      → F.div (F.of_int (pos (n * k))) (F.of_int (pos n)) ≡ F.of_int (pos k)
  pub lt_whole : (k : ℕ) → k ≤ 2 ^ 53 → C.lt (F.of_int (pos 0)) (F.of_int (pos k)) ≡ ltb 0 k

-- Nothing but one value.
abbrev pub AreAll : ℕ → List ℤ → Type 0
AreAll k vs = All (λ v. v ≡ pos k) vs

AreAll-drop : (k n : ℕ) (vs : List ℤ) → AreAll k vs → AreAll k (drop n vs)
AreAll-drop k zero vs h = h
AreAll-drop k (suc n) [] h = h
AreAll-drop k (suc n) (v ∷ vs) h = AreAll-drop k n vs h.1

total-AreAll : (k : ℕ) (vs : List ℤ) → AreAll k vs → total vs ≡ pos (length vs * k)
unfolding total
total-AreAll k [] h = ap pos (omega arith)
total-AreAll k (v ∷ vs) h =
    let next : k + length vs * k ≡ suc (length vs) * k = omega arith in
    ap₂ (λ a b. a +ℤ b) h.0 (total-AreAll k vs h.1) ∙ +ℤ-pos k (length vs * k) ∙ ap pos next

length-last_min : (m : ℕ) (vs : List ℤ) → 3 ≤ m → leb 3 (length (last m vs)) ≡ leb 3 (length vs)
unfolding last
length-last_min m vs h = ground (arith, length-drop (length vs - m) vs)

-- Aggregates whose value of a metric is k.
abbrev pub AreLevel : {T : Type 0} → Metric → ℕ → List (AggregatedFlow T) → Type 0
AreLevel metric k aggs = All (λ agg. value_of metric agg ≡ pos k) aggs

abbrev pub HasAlta : List Warning → Type 0
HasAlta warnings = (w : Warning) × Memᴰ w warnings × (w.severidade ≡ codes "alta")

HasAlta-left : (xs ys : List Warning) → HasAlta xs → HasAlta (xs ++ ys)
HasAlta-left xs ys (w, h, e) = (w, Memᴰ.append_left ys h, e)

HasAlta-right : (xs ys : List Warning) → HasAlta ys → HasAlta (xs ++ ys)
HasAlta-right xs ys (w, h, e) = (w, Memᴰ.append_right xs h, e)

module _ (F : Double) (C : Comparisons F) (exact : IsExactQuotient F C) where
  average-AreAll :
      (m k : ℕ) (vs : List ℤ)
      → AreAll k vs
      → m * k ≤ 2 ^ 53
      → 0 < length (last m vs)
      → average F (rolled m vs) ≡ F.of_int (pos k)
  unfolding average rolled
  average-AreAll m k vs h fits some_value =
      let n = length (last m vs) in
      let sum : total (last m vs) ≡ pos (n * k) =
        unfold last in total-AreAll k (last m vs) (AreAll-drop k (length vs - m) vs h) in
      let short : n ≤ m = length-last m vs in
      let less : n * k ≤ m * k = mul-le-mul_right k short in
      let long : to_long (pos (n * k)) ≡ pos (n * k) =
        to_long_exact (pos (n * k)) (omega arith) (omega arith) in
      let here : ltb 0 n ≡ true = ground (arith, some_value) in
      rw (sum, long, here) (exact.div_whole n k some_value (omega arith))

  -- The warnings of a value against a series of one positive value: by the quotient of the two.
  alerts-AreAll :
      (limits : Limits F C) (m k : ℕ) (vs : List ℤ) (x : ℤ) (label : List ℕ)
      → AreAll k vs
      → 3 ≤ m
      → m * k ≤ 2 ^ 53
      → alerts F C limits (rolled m vs) x label ≡ (
          if leb 3 (length vs) && ltb 0 k
          then grade F C limits
              (F.div (F.of_int x) (F.of_int (pos k)))
              (descricao F C limits (rolled m vs) x label)
          else [])
  unfolding alerts rolled
  alerts-AreAll limits m k vs x label h three fits = elim (Bool-cases (leb 3 (length vs))) [
    | inl enough ↦
        let mean =
          average-AreAll m k vs h fits (ground (arith, enough, length-last_min m vs three)) in
        let once : 3 * k ≤ m * k = mul-le-mul_right k three in
        let positive = exact.lt_whole k (omega arith) in
        rw (length-last_min m vs three, enough, mean, positive) refl
    | inr few ↦ rw (length-last_min m vs three, few) refl
  ]

  module _ (limits : Limits F C) (m : ℕ) (size : limits.window_size ≡ pos m) {T : Type 0} where
    series-AreAll :
        (metric : Metric) (k : ℕ) (aggs : List (AggregatedFlow T))
        → AreLevel metric k aggs
        → AreAll k (series metric aggs)
    series-AreAll metric k [] h = tt
    series-AreAll metric k (agg ∷ aggs) h =
        All-append (λ v. v ≡ pos k) (series metric aggs) (value_of metric agg ∷ [])
          (series-AreAll metric k aggs h.1) (h.0, tt)

    length-series :
        (metric : Metric) (aggs : List (AggregatedFlow T))
        → length (series metric aggs) ≡ length aggs
    length-series metric [] = refl
    length-series metric (agg ∷ aggs) = omega (
      arith,
      length-append (series metric aggs) (value_of metric agg ∷ []),
      length-series metric aggs,
    )

    -- The warnings by a metric that was k all the time.
    pub expected-AreLevel :
        (metric : Metric) (k : ℕ) (aggs : List (AggregatedFlow T)) (agg : AggregatedFlow T)
        → AreLevel metric k aggs
        → 3 ≤ m
        → m * k ≤ 2 ^ 53
        → expected F C limits m size metric false aggs agg ≡ (
            if leb 3 (length aggs) && ltb 0 k
            then grade F C limits (F.div (F.of_int (value_of metric agg)) (F.of_int (pos k))) (
                descricao F C limits
                  (rolled m (series metric aggs))
                  (value_of metric agg)
                  (label_of metric))
            else [])
    expected-AreLevel metric k aggs agg h three fits =
        alerts-AreAll limits m k (series metric aggs) (value_of metric agg) (label_of metric)
          (series-AreAll metric k aggs h) three fits
        ∙ ap
            (λ n.
              if leb 3 n && ltb 0 k
              then grade F C limits (F.div (F.of_int (value_of metric agg)) (F.of_int (pos k))) (
                  descricao F C limits (rolled m (series metric aggs)) (value_of metric agg)
                    (label_of metric))
              else [])
            (length-series metric aggs)

    expected-HasAlta :
        (metric : Metric) (k : ℕ) (broken : Bool) (aggs : List (AggregatedFlow T))
        (agg : AggregatedFlow T)
        → broken ≡ false
        → 3 ≤ m
        → m * k ≤ 2 ^ 53
        → 0 < k
        → 3 ≤ length aggs
        → AreLevel metric k aggs
        → C.le limits.ratio_alta (F.div (F.of_int (value_of metric agg)) (F.of_int (pos k))) ≡ true
        → HasAlta (expected F C limits m size metric broken aggs agg)
    unfolding grade
    expected-HasAlta metric k broken aggs agg sound three fits some_k some_aggs level high =
        let enough : leb 3 (length aggs) ≡ true = ground (arith, some_aggs) in
        let positive : ltb 0 k ≡ true = ground (arith, some_k) in
        rw (sound, expected-AreLevel metric k aggs agg level three fits, enough, positive, high)
          (_, Memᴰ.head refl, refl)

    HasAlta-metric :
        (metric : Metric) (aggs : List (AggregatedFlow T)) (agg : AggregatedFlow T)
        (stores : Stores F C)
        → HasAlta (
            expected F C limits m size metric
              (store_of F C limits m size metric stores).broken
              aggs
              agg)
        → HasAlta (
            expected F C limits m size inbound stores.inbound.broken aggs agg
            ++ (expected F C limits m size outbound stores.outbound.broken aggs agg
                ++ expected F C limits m size flows stores.flows.broken aggs agg))
    HasAlta-metric inbound aggs agg stores h = HasAlta-left _ _ h
    HasAlta-metric outbound aggs agg stores h = HasAlta-right _ _ (HasAlta-left _ _ h)
    HasAlta-metric flows aggs agg stores h = HasAlta-right _ _ (HasAlta-right _ _ h)

    -- A spike is seen: after at least three aggregates with the same positive value of a metric, a
    -- value whose ratio to it reaches ratio_alta makes a warning of the severity alta, whatever the
    -- other two metrics do, unless the store of this metric is broken. This is for a window of at
    -- least three values with a sum of at most 2 ^ 53, exact quotients, and a key that was new to
    -- the stores.
    pub transform-HasAlta :
        (metric : Metric) (k : ℕ) (key : List ℕ) (aggs : List (AggregatedFlow T))
        (agg : AggregatedFlow T) (stores : Stores F C)
        → ((metric : Metric) → (store_of F C limits m size metric stores).rows key ≡ none)
        → (store_of F C limits m size metric stores).broken ≡ false
        → 3 ≤ m
        → m * k ≤ 2 ^ 53
        → 0 < k
        → 3 ≤ length aggs
        → AreLevel metric k aggs
        → C.le limits.ratio_alta (F.div (F.of_int (value_of metric agg)) (F.of_int (pos k))) ≡ true
        → HasAlta
            (transform F C limits (some key) (some agg) (feed F C limits m size key aggs stores)).0
    transform-HasAlta metric k key aggs agg stores fresh sound three fits some_k some_aggs level
          high =
        subst HasAlta (sym (transform-warnings F C limits m size key aggs agg stores fresh)) (
          HasAlta-metric metric aggs agg stores
            (expected-HasAlta metric k _ aggs agg sound three fits some_k some_aggs level high))
