-- ===== src/Viewer/Sent.antt =====
-- The warnings of OutputWatcher (kafkatch-notification) on their way to the toasts of the viewer
-- (kafkatch-alert-viewer).
use kaf_katch.Prelude.{
  ℕ, ◌≡◌, refl, sym, ap, ap₂, subst, ◌∙◌, Option, some, List, [], ◌∷◌, ◌++◌, map, All,
  All-append_split, length, length-append, ◌<◌, ◌≤◌, zero, suc, arith,
}
use mathlib.Core.List.{append-nil}
use kaf_katch.Notification.Detector.{Warning}
use kaf_katch.Viewer.{Toast, notify, show_records, records_of}
use kaf_katch.Core.Serializers.{Value, ObjectMapper, serialize, deserialize}
use kaf_katch.Viewer.Polls.{AreRead, Consumer, view, view-Shows, round-Shows}

module _ (to_lower_case : List ℕ → List ℕ) (mapper : ObjectMapper Warning) where
  -- The values that `to` writes for some warnings.
  abbrev pub AreSent : List Warning → List Value → Type 0
  AreSent [] [] = Unit
  AreSent (w ∷ ws) (value ∷ values) = (serialize mapper (some w) ≡ some value) × AreSent ws values
  AreSent ws values = ⊥

  -- What is written for a warning is read back as it.
  abbrev pub ReadsBack : Warning → Type 0
  ReadsBack w =
      (value : Value)
      → serialize mapper (some w) ≡ some value
      → deserialize mapper value ≡ some (some w)

  AreSent-split :
      (ws : List Warning) (values rest : List Value) (records : List (Option Warning))
      → AreSent ws (values ++ rest)
      → All ReadsBack ws
      → AreRead mapper values records
      → (done : List Warning) × (todo : List Warning) × (ws ≡ done ++ todo)
        × AreSent todo rest
        × (records ≡ records_of to_lower_case done)
  AreSent-split ws [] rest [] h b r = ([], ws, refl, h, refl)
  AreSent-split ws [] rest (w ∷ records) h b r = absurd r
  AreSent-split ws (v ∷ values) rest [] h b r = absurd r
  AreSent-split [] (v ∷ values) rest (o ∷ records) h b r = absurd h
  AreSent-split (w ∷ ws) (v ∷ values) rest (o ∷ records) h b r =
      let (done, todo, parts, later, same) = AreSent-split ws values rest records h.1 b.1 r.1 in
      let back = b.0 v h.0 in
      let read = r.0 in
      let first : o ≡ some w = cc in
      (w ∷ done, todo, ap (λ l. w ∷ l) parts, later, ap₂ (λ a l. a ∷ l) first same)

  show_records-records_of :
      (ws : List Warning)
      → show_records to_lower_case (records_of to_lower_case ws) ≡ map (notify to_lower_case) ws
  unfolding show_records
  show_records-records_of [] = refl
  show_records-records_of (w ∷ ws) =
      ap (λ l. notify to_lower_case w ∷ l) (show_records-records_of ws)

  AreSent-nil : (ws : List Warning) → AreSent ws [] → ws ≡ []
  AreSent-nil [] h = refl
  AreSent-nil (w ∷ ws) h = absurd h

  length-nil : (values : List Value) → length values ≤ 0 → values ≡ []
  length-nil [] h = refl
  length-nil (value ∷ values) h = absurd (omega arith)

  module _ (consumer : Consumer mapper) where
    open consumer use {State, left, poll}

    -- What the viewer has shown of some warnings, and which of them are still to come.
    pub record Notifies (ws : List Warning) (toasts : List Toast) (later : List Value)
        : Type 0 where
      pub done : List Warning
      pub todo : List Warning
      pub parts : ws ≡ done ++ todo
      pub toasted : toasts ≡ map (notify to_lower_case) done
      pub behind : AreSent todo later

    pub view-sent :
        (ws : List Warning) (rounds : ℕ) (s : State)
        → AreSent ws (left s)
        → All ReadsBack ws
        → Notifies ws
            (view mapper to_lower_case consumer rounds s).0
            (left (view mapper to_lower_case consumer rounds s).1)
    view-sent ws rounds s sent back =
        let v = view-Shows mapper to_lower_case consumer rounds s in
        let last = left (view mapper to_lower_case consumer rounds s).1 in
        let (done, todo, parts, behind, same) =
          AreSent-split ws v.values last v.records (subst (AreSent ws) v.passed sent) back v.read in
        record {
          done = done;
          todo = todo;
          parts = parts;
          toasted = v.toasted ∙ ap (show_records to_lower_case) same ∙ show_records-records_of done;
          behind = behind;
        }

    -- A poll goes on if the next record can be read, which it does within its five seconds if it can
    -- fetch it.
    pub record KeepsUp : Type 0 where
      pub moves :
          (s : State) (value : Value) (values : List Value) (w : Option Warning)
          → left s ≡ value ∷ values
          → deserialize mapper value ≡ some w
          → length (left (poll s).1) < length (left s)

    poll-shorter :
        (s : State) (ws : List Warning) (values : List Value) (rounds : ℕ)
        → KeepsUp
        → left s ≡ values
        → AreSent ws values
        → All ReadsBack ws
        → length values ≤ suc rounds
        → length (left (poll s).1) ≤ rounds
    poll-shorter s ws [] rounds keeps e sent back h =
        let v = round-Shows mapper to_lower_case consumer s (poll s).0 refl in
        let parts : length (v.values ++ left (poll s).1) ≡ 0 = ap length (sym v.passed ∙ e) in
        let size = length-append v.values (left (poll s).1) in omega arith
    poll-shorter s [] (value ∷ values) rounds keeps e sent back h = absurd sent
    poll-shorter s (w ∷ ws) (value ∷ values) rounds keeps e sent back h =
        let fewer = keeps.moves s value values (some w) e (back.0 value sent.0) in
        let size : length (left s) ≡ length (value ∷ values) = ap length e in omega arith

    -- So many rounds as there are warnings are enough.
    view-drains :
        (rounds : ℕ) (s : State) (ws : List Warning)
        → KeepsUp
        → AreSent ws (left s)
        → All ReadsBack ws
        → length (left s) ≤ rounds
        → left (view mapper to_lower_case consumer rounds s).1 ≡ []
    unfolding view
    view-drains zero s ws keeps sent back h = length-nil (left s) (omega arith)
    view-drains (suc rounds) s ws keeps sent back h =
        let v = round-Shows mapper to_lower_case consumer s (poll s).0 refl in
        let (done, todo, parts, behind, same) =
          AreSent-split ws v.values (left (poll s).1) v.records (subst (AreSent ws) v.passed sent)
            back v.read in
        view-drains rounds (poll s).1 todo keeps behind
          (All-append_split ReadsBack done todo (subst (All ReadsBack) parts back)).1
          (poll-shorter s ws (left s) rounds keeps refl sent back h)

    -- The toasts are those of all the warnings as soon as nothing is left to read.
    all_notified :
        {ws : List Warning} {toasts : List Toast} {later : List Value}
        → Notifies ws toasts later
        → later ≡ []
        → toasts ≡ map (notify to_lower_case) ws
    all_notified {ws} {toasts} {later} n e =
        n.toasted
        ∙ ap (map (notify to_lower_case)) (
            sym (
              n.parts
              ∙ ap (λ l. n.done ++ l) (AreSent-nil n.todo (subst (AreSent n.todo) e n.behind))
              ∙ append-nil n.done))

    pub view-notify :
        (rounds : ℕ) (s : State) (ws : List Warning)
        → KeepsUp
        → AreSent ws (left s)
        → All ReadsBack ws
        → length (left s) ≤ rounds
        → (view mapper to_lower_case consumer rounds s).0 ≡ map (notify to_lower_case) ws
    view-notify rounds s ws keeps sent back h =
        all_notified (view-sent ws rounds s sent back) (view-drains rounds s ws keeps sent back h)
