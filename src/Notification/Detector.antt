-- ===== src/Notification/Detector.antt =====
-- kafkatch-notification/src/main/java/br/ufes/edu/AnomalyDetectorTransformer.java: the check of a
-- value against the average of those before it, and the three checks of an aggregate.
pub mod History
pub mod Steady
use kaf_katch.Prelude.{
  ℕ, ◌==◌, Bool, true, false, not, leb, if◌then◌else◌, Option, none, some, List, [], ◌∷◌, ◌++◌,
  length,
}
use kaf_katch.Prelude.Int.{ℤ, pos}
use kaf_katch.Double.{Double}
use kaf_katch.Long.{to_int}
use kaf_katch.Text.{codes, join, decimal, signed}
use kaf_katch.Core.Flow.{text_eq}
use kaf_katch.Core.Aggregate.{AggregatedFlow}
use kaf_katch.Notification.Rolling.{RollingStats, new_rolling, add, average}

-- Warning.java
pub record Warning : Type 0 where
  pub severidade : List ℕ
  pub descricao : List ℕ

-- A KeyValueStore: none is null, and in a broken store `get` throws.
pub record Store : Type 0 where
  pub rows : List ℕ → Option RollingStats
  pub broken : Bool

abbrev pub put : Store → List ℕ → RollingStats → Store
put store key stats = record store {
  rows = λ k. if text_eq k key then some stats else store.rows k;
}

-- What else the check does with doubles: comparisons, a difference, and Math.round.
pub record Comparisons (F : Double) : Type 0 where
  pub lt : F.Carrier → F.Carrier → Bool
  pub le : F.Carrier → F.Carrier → Bool
  pub sub : F.Carrier → F.Carrier → F.Carrier
  pub round : F.Carrier → ℤ

module _ (F : Double) (C : Comparisons F) where
  pub record Limits : Type 0 where
    pub window_size : ℤ
    pub ratio_regular : F.Carrier
    pub ratio_media : F.Carrier
    pub ratio_alta : F.Carrier

  -- The fields of the transformer that are state.
  pub record Stores : Type 0 where
    pub inbound : Store
    pub outbound : Store
    pub flows : Store

  module _ (limits : Limits) where
    abbrev pub warn : List ℕ → List ℕ → List Warning
    warn severidade descricao = record { severidade = severidade; descricao = descricao } ∷ []

    unfoldable pub descricao : RollingStats → (current : ℤ) → (label : List ℕ) → List ℕ
    descricao stats current label =
        let mean = average F stats in
        let ratio = F.div (F.of_int current) mean in
        let percent =
          to_int (C.round (F.mul (C.sub ratio (F.of_int (pos 1))) (F.of_int (pos 100)))) in
        join (
          codes "O último agregado registrou "
          ∷ signed current
          ∷ codes " "
          ∷ label
          ∷ codes ", "
          ∷ signed percent
          ∷ codes "% acima da média de "
          ∷ signed (C.round mean)
          ∷ codes " nas "
          ∷ decimal (length stats.values)
          ∷ codes " amostras anteriores"
          ∷ [])

    -- The warnings of a value, if the average is positive.
    unfoldable pub grade : (ratio : F.Carrier) → (text : List ℕ) → List Warning
    grade ratio text =
        if C.le limits.ratio_alta ratio
        then warn (codes "alta") text
        else if C.le limits.ratio_media ratio
        then warn (codes "media") text
        else if C.le limits.ratio_regular ratio
        then warn (codes "regular") text
        else []

    -- The part of check before the value is added.
    unfoldable pub alerts : RollingStats → (current : ℤ) → (label : List ℕ) → List Warning
    unfolding grade
    alerts stats current label =
        if leb 3 (length stats.values)
        then if C.lt (F.of_int (pos 0)) (average F stats)
          then grade (F.div (F.of_int current) (average F stats)) (descricao stats current label)
          else []
        else []

    abbrev pub or_new : Option RollingStats → RollingStats
    or_new none = new_rolling limits.window_size
    or_new (some stats) = stats

    abbrev pub stored :
        Store → List ℕ → List Warning → Option RollingStats → Option (List Warning × Store)
    stored store key warnings none = none
    stored store key warnings (some stats) = some (warnings, put store key stats)

    -- An exception, of the store or of RollingStats.add, is none.
    unfoldable pub check :
        Store
        → (store_key : List ℕ) → (current : ℤ) → (label : List ℕ) → Option (List Warning × Store)
    unfolding alerts
    check store store_key current label =
        let stats = or_new (store.rows store_key) in
        if store.broken
        then none
        else stored store store_key (alerts stats current label) (add current stats)

    -- `try { warnings.addAll(check(…)); } catch (Exception e) { … }`
    abbrev pub caught : Store → Option (List Warning × Store) → List Warning × Store
    caught store none = ([], store)
    caught store (some r) = r

    abbrev pub or_global : Option (List ℕ) → List ℕ
    or_global none = codes "global"
    or_global (some key) = key

    abbrev pub transform_value :
        {T : Type 0} → Stores → List ℕ → Option (AggregatedFlow T) → List Warning × Stores
    transform_value stores store_key none = ([], stores)
    transform_value stores store_key (some value) =
        let from_inbound =
          caught stores.inbound
            (check stores.inbound store_key value.bytes_inbound (codes "bytes recebidos")) in
        let from_outbound =
          caught stores.outbound
            (check stores.outbound store_key value.bytes_outbound (codes "bytes enviados")) in
        let from_flows =
          caught stores.flows
            (check stores.flows store_key value.unique_flow_count (codes "conexões únicas")) in
        (
          from_inbound.0 ++ (from_outbound.0 ++ from_flows.0),
          record { inbound = from_inbound.1; outbound = from_outbound.1; flows = from_flows.1 },
        )

    -- null is none, for the key and for the value.
    unfoldable pub transform :
        {T : Type 0} → Option (List ℕ) → Option (AggregatedFlow T) → Stores → List Warning × Stores
    unfolding check
    transform key value stores = transform_value stores (or_global key) value
