-- ===== src/Viewer.antt =====
-- kafkatch-alert-viewer/src/main/java/br/ufes/edu: the toast of a warning (Notifier.java), and the
-- body of the loop of App.java over the records of a poll.
pub mod Polls
pub mod Sent
use kaf_katch.Prelude.{
  ◌≤◌, ℕ, ◌≡◌, Bool, true, false, Option, none, some, if◌then◌else◌, List, [], ◌∷◌, All, All-append,
  arith,
}
use kaf_katch.Prelude.Int.{ℤ}
use kaf_katch.Double.{Double}
use kaf_katch.Text.{codes, join}
use kaf_katch.Core.Flow.{text_eq}
use kaf_katch.Core.Aggregate.{AggregatedFlow}
use kaf_katch.Notification.Rolling.{RollingStats, add, average}
use kaf_katch.Notification.Detector.{
  Warning, Store, Comparisons, Limits, Stores, descricao, grade, alerts, or_new, stored, check,
  caught, transform,
}
use kaf_katch.Core.Publish.{Message}
use kaf_katch.Notification.Watcher.{watch, watch_parsed}

-- The constants of ToastType that the viewer uses.
pub data ToastType : Type 0 where
  info warning error : ToastType

pub record Toast : Type 0 where
  pub kind : ToastType
  pub title : List ℕ
  pub text : List ℕ

-- How severe the toast is that a warning shows.
abbrev pub severity : ToastType → ℕ
severity info = 1
severity warning = 2
severity error = 3

abbrev pub rank : List Toast → ℕ
rank [] = 0
rank (t ∷ toasts) = severity t.kind

-- `to_lower_case` is String.toLowerCase.
module _ (to_lower_case : List ℕ → List ℕ) where
  -- The type, and whether it is the fallback, which is reported on the console.
  abbrev pub known_type : (severidade : List ℕ) → ToastType × Bool
  known_type severidade =
      if text_eq severidade (codes "alta")
      then (error, false)
      else if text_eq severidade (codes "media")
      then (warning, false)
      else if text_eq severidade (codes "regular")
      then (info, false)
      else (info, true)

  -- A severity of null is none.
  unfoldable pub toast_type_for : (severidade : Option (List ℕ)) → ToastType × Bool
  toast_type_for none = (info, true)
  toast_type_for (some severidade) = known_type (to_lower_case severidade)

  unfoldable pub notify : Warning → Toast
  unfolding toast_type_for
  notify w = record {
    kind = (toast_type_for (some w.severidade)).0;
    title = join (codes "Alerta de rede [" ∷ w.severidade ∷ codes "]" ∷ []);
    text = w.descricao;
  }

  -- The toasts for the records of a poll, of which a null value is left out.
  unfoldable pub show_records : List (Option Warning) → List Toast
  unfolding notify
  show_records [] = []
  show_records (none ∷ records) = show_records records
  show_records (some w ∷ records) = notify w ∷ show_records records

  -- The severities of the detector are written in small letters, which toLowerCase leaves as they
  -- are.
  pub record KeepsSmall : Type 0 where
    pub alta : to_lower_case (codes "alta") ≡ codes "alta"
    pub media : to_lower_case (codes "media") ≡ codes "media"
    pub regular : to_lower_case (codes "regular") ≡ codes "regular"

  abbrev pub records_of : List Warning → List (Option Warning)
  records_of [] = []
  records_of (w ∷ ws) = some w ∷ records_of ws

  abbrev pub IsKnown : Warning → Type 0
  IsKnown w = (toast_type_for (some w.severidade)).1 ≡ false

  module _ (F : Double) (C : Comparisons F) (limits : Limits F C) (small : KeepsSmall) where
    -- The toasts that a ratio calls for.
    unfoldable pub toasts_of : (ratio : F.Carrier) → (text : List ℕ) → List Toast
    toasts_of ratio text =
        if C.le limits.ratio_alta ratio
        then record { kind = error; title = codes "Alerta de rede [alta]"; text = text } ∷ []
        else if C.le limits.ratio_media ratio
        then record { kind = warning; title = codes "Alerta de rede [media]"; text = text } ∷ []
        else if C.le limits.ratio_regular ratio
        then record { kind = info; title = codes "Alerta de rede [regular]"; text = text } ∷ []
        else []

    show_records-grade :
        (ratio : F.Carrier) (text : List ℕ)
        → show_records (records_of (grade F C limits ratio text)) ≡ toasts_of ratio text
    unfolding grade show_records notify toast_type_for join toasts_of
    show_records-grade ratio text = ground (arith, small.alta, small.media, small.regular)

    abbrev pub TransitiveLe : Type 0
    TransitiveLe = (a b c : F.Carrier) → C.le a b ≡ true → C.le b c ≡ true → C.le a c ≡ true

    rank-toasts_of :
        TransitiveLe
        → (low high : F.Carrier) (text text' : List ℕ) → C.le low high ≡ true
        → rank (toasts_of low text) ≤ rank (toasts_of high text')
    unfolding toasts_of
    rank-toasts_of trans low high text text' h = ground (
      arith,
      trans limits.ratio_alta low high,
      trans limits.ratio_media low high,
      trans limits.ratio_regular low high,
    )

    -- From the detector to the viewer, severity only grows: of two ratios, the toast for the higher
    -- one is never less severe than that for the lower one, where no toast is below INFO, WARNING and
    -- ERROR, if the order of doubles is transitive and toLowerCase leaves the words in small letters
    -- as they are.
    pub show_records-grade_mono :
        TransitiveLe
        → (low high : F.Carrier) (text text' : List ℕ) → C.le low high ≡ true
        → rank (show_records (records_of (grade F C limits low text)))
          ≤ rank (show_records (records_of (grade F C limits high text')))
    show_records-grade_mono trans low high text text' h =
        rw (show_records-grade low text, show_records-grade high text')
          (rank-toasts_of trans low high text text' h)

    grade-IsKnown : (ratio : F.Carrier) (text : List ℕ) → All IsKnown (grade F C limits ratio text)
    unfolding grade toast_type_for
    grade-IsKnown ratio text = ground (arith, small.alta, small.media, small.regular)

    alerts-IsKnown :
        (stats : RollingStats) (current : ℤ) (label : List ℕ)
        → All IsKnown (alerts F C limits stats current label)
    unfolding alerts
    alerts-IsKnown stats current label = ground (
      arith,
      grade-IsKnown (F.div (F.of_int current) (average F stats))
          (descricao F C limits stats current label),
    )

    stored-IsKnown :
        (store : Store) (key : List ℕ) (warnings : List Warning) (stats : Option RollingStats)
        → All IsKnown warnings
        → All IsKnown (caught F C limits store (stored F C limits store key warnings stats)).0
    stored-IsKnown store key warnings none h = tt
    stored-IsKnown store key warnings (some stats) h = h

    check-IsKnown :
        (store : Store) (key : List ℕ) (current : ℤ) (label : List ℕ)
        → All IsKnown (caught F C limits store (check F C limits store key current label)).0
    unfolding check
    check-IsKnown store key current label = ground (
      arith,
      stored-IsKnown store key _ (add current (or_new F C limits (store.rows key)))
          (alerts-IsKnown (or_new F C limits (store.rows key)) current label),
    )

    transform-IsKnown :
        {T : Type 0} (key : Option (List ℕ)) (value : Option (AggregatedFlow T))
        (stores : Stores F C)
        → All IsKnown (transform F C limits key value stores).0
    unfolding transform
    transform-IsKnown key none stores = tt
    transform-IsKnown key (some agg) stores =
        All-append IsKnown _ _ (check-IsKnown stores.inbound _ _ _) (
          All-append IsKnown _ _ (check-IsKnown stores.outbound _ _ _)
            (check-IsKnown stores.flows _ _ _))

    module _ {T : Type 0} (from_json_string : List ℕ → Option (AggregatedFlow T)) where
      watch_parsed-IsKnown :
          (key : Option (List ℕ)) (value : Option (AggregatedFlow T)) (stores : Stores F C)
          → All IsKnown (watch_parsed F C limits from_json_string key value stores).0
      watch_parsed-IsKnown key none stores = tt
      watch_parsed-IsKnown key (some agg) stores = transform-IsKnown key (some agg) stores

      -- No warning that is sent ever comes to the fallback of the viewer: whatever messages come, and
      -- whatever the stores hold, broken or not, each warning has a severity that toastTypeFor knows,
      -- if toLowerCase leaves the words in small letters as they are.
      pub watch-IsKnown :
          (messages : List Message) (stores : Stores F C)
          → All IsKnown (watch F C limits from_json_string messages stores).0
      unfolding watch
      watch-IsKnown [] stores = tt
      watch-IsKnown (m ∷ messages) stores =
          All-append IsKnown _ _ (watch_parsed-IsKnown m.key (from_json_string m.value) stores)
            (watch-IsKnown messages _)
