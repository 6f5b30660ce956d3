-- ===== src/Notification/App/Null.antt =====
-- kafkatch-notification/src/main/java/br/ufes/edu: what a null does to App.java and its Notifier.java.
use kaf_katch.Prelude.{
  ℕ, ◌+◌, ◌≤◌, ◌≡◌, refl, sym, ap, ap₂, ◌∙◌, Bool, true, false, suc, Option, none, some, List, [],
  ◌∷◌, ◌++◌, length, length-append, kept, All, arith,
}
use mathlib.Core.List.{append_assoc, append-nil}
use kaf_katch.Prelude.Int.{pos}
use kaf_katch.Core.Aggregate.{AggregatedFlow}
use kaf_katch.Notification.Notifier.{
  Bounds, Notifier, new_notifier, add_newest, drop_oldest, add_aggregate_sample, anomalies,
  newest_of, check_for_anomalies,
}
use kaf_katch.Notification.Notifier.Sample.{
  holding, all_of, all_of-append, length-all_of, add_newest-holding, new_notifier-holding,
}
use kaf_katch.Notification.Rolling.{last_short}
use kaf_katch.Notification.App.{
  checked, handle_aggregate, consume, joined, readable, IsNoNull, alarms, newest_of-append,
  consume-record,
}

module _ {T : Type 0} (from_json_string : List ℕ → Option (Option (AggregatedFlow T))) (m : ℕ)
    (bounds : Bounds) where
  length-kept :
      (o : Option (AggregatedFlow T)) (aggs : List (AggregatedFlow T))
      → length (kept o aggs) ≡ length (kept o []) + length aggs
  length-kept none aggs = omega arith
  length-kept (some a) aggs = omega arith

  -- A null in front of some aggregates.
  abbrev nulled : List (AggregatedFlow T) → Notifier T
  nulled aggs = record (holding m bounds aggs) { aggregate_sample = none ∷ all_of aggs }

  newest_of-nulled :
      (aggs : List (AggregatedFlow T)) (a : AggregatedFlow T)
      → newest_of (none ∷ all_of (aggs ++ a ∷ [])) ≡ some a
  newest_of-nulled aggs a =
      ap (λ l. newest_of (none ∷ l)) (all_of-append aggs a)
      ∙ newest_of-append from_json_string (none ∷ all_of aggs) (some a)

  add_newest-nulled :
      (aggs : List (AggregatedFlow T)) (a : AggregatedFlow T)
      → add_newest a (nulled aggs) ≡ nulled (aggs ++ a ∷ [])
  add_newest-nulled aggs a =
      ap₂ (λ (n : Notifier T) l. record n { aggregate_sample = none ∷ l })
        (add_newest-holding m bounds aggs a) (sym (all_of-append aggs a))

  drop_oldest-nulled :
      (aggs : List (AggregatedFlow T))
      → length aggs + 1 ≤ m
      → drop_oldest (none ∷ all_of aggs) (nulled aggs) ≡ (nulled aggs, true)
  unfolding drop_oldest
  drop_oldest-nulled aggs room = ground (arith, length-all_of aggs)

  drop_oldest-throws :
      (aggs : List (AggregatedFlow T))
      → length aggs ≡ m
      → (drop_oldest (none ∷ all_of aggs) (nulled aggs)).1 ≡ false
  unfolding drop_oldest
  drop_oldest-throws aggs full = ground (arith, length-all_of aggs)

  add_aggregate_sample-nulled :
      (aggs : List (AggregatedFlow T)) (a : AggregatedFlow T)
      → add_aggregate_sample (some a) (nulled aggs)
        ≡ drop_oldest (none ∷ all_of (aggs ++ a ∷ [])) (nulled (aggs ++ a ∷ []))
  unfolding add_aggregate_sample
  add_aggregate_sample-nulled aggs a =
      ap (λ n. drop_oldest n.aggregate_sample n) (add_newest-nulled aggs a)

  -- As long as there is room, the null does no harm.
  handle_aggregate-nulled :
      (aggs : List (AggregatedFlow T)) (a : AggregatedFlow T)
      → length aggs + 2 ≤ m
      → handle_aggregate from_json_string (some (some a)) (nulled aggs)
        ≡ (anomalies a bounds, nulled (aggs ++ a ∷ []))
  unfolding check_for_anomalies
  handle_aggregate-nulled aggs a room =
      let size = length-append aggs (a ∷ []) in
      rw
        (
          add_aggregate_sample-nulled aggs a,
          drop_oldest-nulled (aggs ++ a ∷ []) (omega arith),
          newest_of-nulled aggs a,
        )
        refl

  checked-false : (r : Notifier T × Bool) → r.1 ≡ false → (checked from_json_string r).0 ≡ []
  checked-false (n, true) h = absurd (cc)
  checked-false (n, false) h = refl

  -- Then it is removed, and the exception hides the newest aggregate.
  handle_aggregate-full :
      (aggs : List (AggregatedFlow T)) (a : AggregatedFlow T)
      → length aggs + 1 ≡ m
      → (handle_aggregate from_json_string (some (some a)) (nulled aggs)).0 ≡ []
  handle_aggregate-full aggs a full =
      let size = length-append aggs (a ∷ []) in
      checked-false (add_aggregate_sample (some a) (nulled aggs)) (
        ap (λ (r : Notifier T × Bool). r.1) (add_aggregate_sample-nulled aggs a)
        ∙ drop_oldest-throws (aggs ++ a ∷ []) (omega arith))

  null-nulled :
      handle_aggregate from_json_string (some none) (new_notifier (pos m) bounds) ≡ ([], nulled [])
  unfolding add_aggregate_sample
  null-nulled =
      ap (λ (n : Notifier T). ([], record n { aggregate_sample = n.aggregate_sample ++ none ∷ [] }))
        (new_notifier-holding m bounds ∙ ap (holding m bounds) (last_short m [] (omega arith)))

  -- The records that fill the sample behind a null.
  consume-nulled :
      (before : List (AggregatedFlow T)) (records : List (List ℕ))
      → All (IsNoNull from_json_string) records
      → length before + length (readable from_json_string records) + 1 ≤ m
      → consume from_json_string records (nulled before) ≡ (
        alarms from_json_string bounds (readable from_json_string records),
        nulled (before ++ readable from_json_string records),
      )
  unfolding consume
  consume-nulled before [] whole room = rw (append-nil before) refl
  consume-nulled before (json ∷ records) whole room =
      let aggs = readable from_json_string records in
      let read = joined from_json_string (from_json_string json) in
      let size = length-kept read aggs in
      consume-record from_json_string nulled bounds before (from_json_string json) records aggs
        whole.0
        (λ a e.
          let one : length (kept read aggs) ≡ suc (length aggs) =
            ap (λ o. length (kept (joined from_json_string o) aggs)) e in
          handle_aggregate-nulled before a (omega arith))
        (λ older e.
          let grown : length older ≡ length before + length (kept read []) =
            ap length e ∙ length-append before (kept read []) in
          consume-nulled older records whole.1 (omega arith))

  consume-last :
      (records : List (List ℕ)) (json : List ℕ) (n : Notifier T)
      → (consume from_json_string (records ++ json ∷ []) n).0
        ≡ (consume from_json_string records n).0
          ++ (handle_aggregate from_json_string
              (from_json_string json)
              (consume from_json_string records n).1).0
  unfolding consume
  consume-last [] json n = append-nil _
  consume-last (r ∷ records) json n =
      let now = handle_aggregate from_json_string (from_json_string r) n in
      ap (λ l. now.0 ++ l) (consume-last records json now.1)
      ∙ sym (append_assoc now.0 (consume from_json_string records now.1).0 _)

  -- A null that comes first hides an aggregate later: with room for m in the sample, the alerts for
  -- a null, any records of m - 1 aggregates and one more aggregate are those of the m - 1, and none
  -- for the last one, however far it is beyond the limits.
  pub consume-null :
      (null : List ℕ) (records : List (List ℕ)) (json : List ℕ) (a : AggregatedFlow T)
      → from_json_string null ≡ some none
      → All (IsNoNull from_json_string) records
      → length (readable from_json_string records) + 1 ≡ m
      → from_json_string json ≡ some (some a)
      → (consume from_json_string (null ∷ records ++ json ∷ []) (new_notifier (pos m) bounds)).0
        ≡ alarms from_json_string bounds (readable from_json_string records)
  unfolding consume
  consume-null null records json a is_null whole full reads =
      let aggs = readable from_json_string records in
      let filled = consume-nulled [] records whole (omega arith) in
      let hidden : (handle_aggregate from_json_string (from_json_string json) (nulled aggs)).0
          ≡ [] =
        ap (λ o. (handle_aggregate from_json_string o (nulled aggs)).0) reads
        ∙ handle_aggregate-full aggs a full in
      rw
        (
          is_null,
          null-nulled,
          consume-last records json (nulled []),
          filled,
          hidden,
          append-nil (alarms from_json_string bounds aggs),
        )
        refl
