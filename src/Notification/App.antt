-- ===== src/Notification/App.antt =====
-- kafkatch-notification/src/main/java/br/ufes/edu/App.java: the loop over the records of its
-- consumer, in the order in which it polls them.
pub mod Null
use kaf_katch.Prelude.{
  ℕ, ◌+◌, ◌-◌, ◌<◌, ◌≡◌, refl, sym, ap, ◌∙◌, Option, none, some, List, [], ◌∷◌, ◌++◌, length,
  length-append, drop, kept, arith, Bool, true, false, All, ◌≢◌, ◌≤◌, suc, ltb,
}
use mathlib.Core.List.{append_assoc, append-nil}
use kaf_katch.Prelude.Int.{pos}
use kaf_katch.Core.Aggregate.{AggregatedFlow}
use kaf_katch.Notification.Rolling.{last, drop-append}
use kaf_katch.Notification.Notifier.{
  Bounds, Notifier, new_notifier, add_aggregate_sample, anomalies, newest_of, check_for_anomalies,
}
use kaf_katch.Notification.Notifier.Sample.{
  holding, all_of, all_of-append, length-all_of, add_aggregate_sample-holding, new_notifier-holding,
}

-- The notifier of main.
abbrev pub app_limits : Bounds
app_limits = record {
  bytes_inbound_limit = pos 10000000;
  bytes_outbound_limit = pos 1000000;
  unique_flow_limit = pos 200;
}

unfoldable pub app_notifier : {T : Type 0} → Notifier T
app_notifier = new_notifier (pos 60) app_limits

abbrev pub Alert : Type 0
Alert = List ℕ × List ℕ

-- `from_json_string` is AggregatedFlowParser.fromJsonString: none where it throws, and `some none`
-- for the null that Jackson gives for the text `null`.
module _ {T : Type 0} (from_json_string : List ℕ → Option (Option (AggregatedFlow T))) where
  -- An exception is caught, and the notifier stays as it is by then.
  abbrev pub shown : Option (List Alert) → List Alert
  shown none = []
  shown (some alerts) = alerts

  abbrev pub checked : Notifier T × Bool → List Alert × Notifier T
  checked (n, true) = (shown (check_for_anomalies n), n)
  checked (n, false) = ([], n)

  abbrev pub handle_aggregate :
      Option (Option (AggregatedFlow T)) → Notifier T → List Alert × Notifier T
  handle_aggregate none n = ([], n)
  handle_aggregate (some a) n = checked (add_aggregate_sample a n)

  -- The alerts for some records, and the notifier after them.
  unfoldable pub consume : List (List ℕ) → Notifier T → List Alert × Notifier T
  consume [] n = ([], n)
  consume (json ∷ records) n =
      let now = handle_aggregate (from_json_string json) n in
      let later = consume records now.1 in (now.0 ++ later.0, later.1)

  abbrev pub joined : Option (Option (AggregatedFlow T)) → Option (AggregatedFlow T)
  joined none = none
  joined (some o) = o

  -- The aggregates that can be read.
  abbrev pub readable : List (List ℕ) → List (AggregatedFlow T)
  readable [] = []
  readable (json ∷ records) = kept (joined (from_json_string json)) (readable records)

  -- A text of which no null is read.
  abbrev pub IsNoNull : List ℕ → Type 0
  IsNoNull json = from_json_string json ≢ some none

  -- The alerts that they call for.
  abbrev pub alarms : Bounds → List (AggregatedFlow T) → List Alert
  alarms bounds [] = []
  alarms bounds (a ∷ aggs) = anomalies a bounds ++ alarms bounds aggs

  pub newest_of-append :
      (aggs : List (Option (AggregatedFlow T))) (o : Option (AggregatedFlow T))
      → newest_of (aggs ++ o ∷ []) ≡ o
  newest_of-append [] o = refl
  newest_of-append (b ∷ []) o = refl
  newest_of-append (b ∷ c ∷ aggs) o = newest_of-append (c ∷ aggs) o

  -- A sample that may hold something has the newest aggregate.
  newest_of-last :
      (m : ℕ) (aggs : List (AggregatedFlow T)) (a : AggregatedFlow T)
      → 0 < m
      → newest_of (all_of (last m (aggs ++ a ∷ []))) ≡ some a
  unfolding last
  newest_of-last m aggs a h =
      let size : length (aggs ++ a ∷ []) ≡ length aggs + 1 = length-append aggs (a ∷ []) in
      let cut : ℕ = length (aggs ++ a ∷ []) - m in
      let split : drop cut aggs ++ a ∷ [] ≡ drop (0 + cut) (aggs ++ a ∷ []) =
        drop-append cut 0 aggs (a ∷ []) (omega arith) in
      let here : 0 + cut ≡ cut = omega arith in
      ap (λ n. newest_of (all_of (drop n (aggs ++ a ∷ [])))) (sym here)
      ∙ ap (λ l. newest_of (all_of l)) (sym split)
      ∙ ap newest_of (all_of-append (drop cut aggs) a)
      ∙ newest_of-append (all_of (drop cut aggs)) (some a)

  handle_aggregate-holding :
      (m : ℕ) (bounds : Bounds) (before : List (AggregatedFlow T)) (a : AggregatedFlow T)
      → 0 < m
      → handle_aggregate (some (some a)) (holding m bounds (last m before))
        ≡ (anomalies a bounds, holding m bounds (last m (before ++ a ∷ [])))
  unfolding check_for_anomalies
  handle_aggregate-holding m bounds before a h =
      rw (add_aggregate_sample-holding m bounds before a, newest_of-last m before a h)

  -- One record more in front of some others, for notifiers that hold some aggregates.
  pub consume-record :
      (state : List (AggregatedFlow T) → Notifier T) (bounds : Bounds)
      (before : List (AggregatedFlow T)) (o : Option (Option (AggregatedFlow T)))
      (records : List (List ℕ)) (aggs : List (AggregatedFlow T))
      → o ≢ some none
      → ((a : AggregatedFlow T)
          → o ≡ some (some a)
          → handle_aggregate (some (some a)) (state before)
            ≡ (anomalies a bounds, state (before ++ a ∷ [])))
      → ((older : List (AggregatedFlow T))
          → older ≡ before ++ kept (joined o) []
          → consume records (state older) ≡ (alarms bounds aggs, state (older ++ aggs)))
      → ◌≡◌ {A = List Alert × Notifier T}
          (let now = handle_aggregate o (state before) in
            (now.0 ++ (consume records now.1).0, (consume records now.1).1))
          (alarms bounds (kept (joined o) aggs), state (before ++ kept (joined o) aggs))
  consume-record state bounds before none records aggs whole now ih =
      ih before (sym (append-nil before))
  consume-record state bounds before (some none) records aggs whole now ih = absurd (whole refl)
  consume-record state bounds before (some (some a)) records aggs whole now ih =
      let all : (before ++ a ∷ []) ++ aggs ≡ before ++ a ∷ aggs =
        append_assoc before (a ∷ []) aggs in
      ap
        (λ (r : List Alert × Notifier T). (r.0 ++ (consume records r.1).0, (consume records r.1).1))
        (now a refl)
      ∙ ap (λ (r : List Alert × Notifier T). (anomalies a bounds ++ r.0, r.1))
          (ih (before ++ a ∷ []) refl)
      ∙ ap (λ sample. (alarms bounds (a ∷ aggs), state sample)) all

  consume-after :
      (m : ℕ) (bounds : Bounds) (before : List (AggregatedFlow T)) (records : List (List ℕ))
      → 0 < m
      → All IsNoNull records
      → consume records (holding m bounds (last m before))
        ≡ (alarms bounds (readable records), holding m bounds (last m (before ++ readable records)))
  unfolding consume
  consume-after m bounds before [] h whole = rw (append-nil before)
  consume-after m bounds before (json ∷ records) h whole =
      consume-record (λ sample. holding m bounds (last m sample)) bounds before
        (from_json_string json) records (readable records) whole.0
        (λ a e. handle_aggregate-holding m bounds before a h)
        (λ older e. consume-after m bounds older records h whole.1)

  -- After any records without a null, of which those that cannot be read are left out, the alerts are
  -- those of each aggregate beyond the limits, in order, and the notifier holds the last m aggregates with their
  -- sums, wrapped to a `long` or an `int`, and their largest values, or -1 if none is above it, for a
  -- sample of at least one aggregate.
  pub consume-holding :
      (m : ℕ) (bounds : Bounds) (records : List (List ℕ))
      → 0 < m
      → All IsNoNull records
      → consume records (new_notifier (pos m) bounds)
        ≡ (alarms bounds (readable records), holding m bounds (last m (readable records)))
  consume-holding m bounds records h whole =
      ap (consume records) (new_notifier-holding m bounds)
      ∙ consume-after m bounds [] records h whole
