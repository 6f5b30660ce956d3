-- ===== src/Viewer/Polls.antt =====
-- kafkatch-alert-viewer/src/main/java/br/ufes/edu/App.java: the loop of polls.
use kaf_katch.Prelude.{
  ℕ, zero, suc, ◌≡◌, refl, sym, ap, ap₂, ◌∙◌, Option, none, some, List, [], ◌∷◌, ◌++◌,
}
use mathlib.Core.List.{append_assoc}
use kaf_katch.Core.Serializers.{Value, ObjectMapper, deserialize}
use kaf_katch.Notification.Detector.{Warning}
use kaf_katch.Viewer.{Toast, notify, show_records}

module _ (mapper : ObjectMapper Warning) where
  -- Records that are read from some values.
  abbrev pub AreRead : List Value → List (Option Warning) → Type 0
  AreRead [] [] = Unit
  AreRead (value ∷ values) (w ∷ ws) = (deserialize mapper value ≡ some w) × AreRead values ws
  AreRead values ws = ⊥

  AreRead-append :
      (xs ys : List Value) (ws vs : List (Option Warning))
      → AreRead xs ws
      → AreRead ys vs
      → AreRead (xs ++ ys) (ws ++ vs)
  AreRead-append [] ys [] vs h k = k
  AreRead-append [] ys (w ∷ ws) vs h k = absurd h
  AreRead-append (x ∷ xs) ys [] vs h k = absurd h
  AreRead-append (x ∷ xs) ys (w ∷ ws) vs h k = (h.0, AreRead-append xs ys ws vs h.1 k)

  -- A value that cannot be read stays behind all those that are.
  AreRead-before :
      (good after : List Value) (bad : Value) (seen rest : List Value) (ws : List (Option Warning))
      → good ++ bad ∷ after ≡ seen ++ rest
      → deserialize mapper bad ≡ none
      → AreRead seen ws
      → (more : List Value) × (good ≡ seen ++ more) × (rest ≡ more ++ bad ∷ after)
  AreRead-before good after bad [] rest ws e fails h = (good, refl, sym e)
  AreRead-before good after bad (x ∷ seen) rest [] e fails h = absurd h
  AreRead-before [] after bad (x ∷ seen) rest (w ∷ ws) e fails h = let read = h.0 in cc
  AreRead-before (g ∷ good) after bad (x ∷ seen) rest (w ∷ ws) e fails h =
      let (more, parts, behind) = AreRead-before good after bad seen rest ws (cc) fails h.1 in
      let first : g ≡ x = cc in (more, ap₂ (λ a l. a ∷ l) first parts, behind)

  -- The consumer, of which `left` are the values of the topic behind its position, now or later. Its
  -- documentation says that poll gives the next records, as many as it likes, and goes behind them,
  -- and that where it throws, for a record that cannot be read among other reasons, it stays.
  pub record Consumer : Type 1 where
    pub State : Type 0
    pub left : State → List Value
    pub poll : State → Option (List (Option Warning)) × State
    pub polled :
        (s : State) (records : List (Option Warning))
        → (poll s).0 ≡ some records
        → (values : List Value) × (left s ≡ values ++ left (poll s).1) × AreRead values records
    pub threw : (s : State) → (poll s).0 ≡ none → left (poll s).1 ≡ left s

  module _ (to_lower_case : List ℕ → List ℕ) (consumer : Consumer) where
    open consumer use {State, left, poll, polled, threw}

    -- The body of `while (true)`: an exception of poll is caught, and the next round begins.
    abbrev pub shown : Option (List (Option Warning)) → List Toast
    shown none = []
    shown (some records) = show_records to_lower_case records

    -- Some rounds of it: the toasts, and the consumer after them.
    unfoldable pub view : (rounds : ℕ) → State → List Toast × State
    view zero s = ([], s)
    view (suc rounds) s =
        let polled_now = poll s in
        let later = view rounds polled_now.1 in (shown polled_now.0 ++ later.0, later.1)

    show_records-append :
        (ws vs : List (Option Warning))
        → show_records to_lower_case (ws ++ vs)
          ≡ show_records to_lower_case ws ++ show_records to_lower_case vs
    unfolding show_records
    show_records-append [] vs = refl
    show_records-append (none ∷ ws) vs = show_records-append ws vs
    show_records-append (some w ∷ ws) vs =
        ap (λ l. notify to_lower_case w ∷ l) (show_records-append ws vs)

    -- What some rounds have shown: the records behind the first position, up to the last one.
    pub record Shows (s last : State) (toasts : List Toast) : Type 0 where
      pub values : List Value
      pub records : List (Option Warning)
      pub passed : left s ≡ values ++ left last
      pub read : AreRead values records
      pub toasted : toasts ≡ show_records to_lower_case records

    Shows-trans :
        (s t last : State) (now later : List Toast)
        → Shows s t now
        → Shows t last later
        → Shows s last (now ++ later)
    Shows-trans s t last now later a b = record {
      values = a.values ++ b.values;
      records = a.records ++ b.records;
      passed =
          a.passed
          ∙ ap (λ l. a.values ++ l) b.passed
          ∙ sym (append_assoc a.values b.values (left last));
      read = AreRead-append a.values b.values a.records b.records a.read b.read;
      toasted =
          ap₂ (λ xs ys. xs ++ ys) a.toasted b.toasted
          ∙ sym (show_records-append a.records b.records);
    }

    pub round-Shows :
        (s : State) (o : Option (List (Option Warning)))
        → (poll s).0 ≡ o
        → Shows s (poll s).1 (shown o)
    unfolding show_records
    round-Shows s none e = record {
      values = [];
      records = [];
      passed = sym (threw s e);
      read = tt;
      toasted = refl;
    }
    round-Shows s (some records) e =
        let (values, passed, read) = polled s records e in
        record { values = values; records = records; passed = passed; read = read; toasted = refl }

    -- The viewer shows a toast for each warning that it reads, in their order, none twice and none left
    -- out, whatever the sizes of the batches and however many polls throw: after any number of
    -- rounds, the toasts are those of the records between the first position and the last one.
    pub view-Shows : (rounds : ℕ) (s : State) → Shows s (view rounds s).1 (view rounds s).0
    unfolding view show_records
    view-Shows zero s = record {
      values = [];
      records = [];
      passed = refl;
      read = tt;
      toasted = refl;
    }
    view-Shows (suc rounds) s =
        Shows-trans s (poll s).1 (view rounds (poll s).1).1 (shown (poll s).0)
          (view rounds (poll s).1).0 (round-Shows s (poll s).0 refl) (view-Shows rounds (poll s).1)

    -- One message that cannot be read stops the viewer for good: however often it polls, its position
    -- does not get behind that message, and the toasts are those of records before it.
    pub view-stuck :
        (rounds : ℕ) (s : State) (good after : List Value) (bad : Value)
        → left s ≡ good ++ bad ∷ after
        → deserialize mapper bad ≡ none
        → (seen : List Value) × (more : List Value) × (records : List (Option Warning)) × (good
            ≡ seen ++ more)
          × (left (view rounds s).1 ≡ more ++ bad ∷ after)
          × AreRead seen records
          × ((view rounds s).0 ≡ show_records to_lower_case records)
    view-stuck rounds s good after bad e fails =
        let v = view-Shows rounds s in
        let (more, parts, behind) =
          AreRead-before good after bad v.values (left (view rounds s).1) v.records
            (sym e ∙ v.passed) fails v.read in
        (v.values, more, v.records, parts, behind, v.read, v.toasted)
