-- ===== src/Sniffer/Context/Table.antt =====
-- A flow table on the heap: its nodes hold the flows of a list, in the same order.
use kaf_katch.Prelude.{
  ℕ, suc, ◌≤◌, ◌<◌, ◌≡◌, refl, ◌∙◌, subst, inl, inr, Bool, Bool-cases, ltb, true, false, ◌||◌, ◌==◌,
  Option, none, some, List, [], ◌∷◌, ◌++◌, arith,
}
use kaf_katch.Double.{Double}
use kaf_katch.Sniffer.Stats.{FlowKey, PktStats, key_eq, key_eq_comm}
use kaf_katch.Sniffer.Flow.{Flow, flow_update_stats}
use kaf_katch.Sniffer.Machine.{update}
use kaf_katch.Sniffer.UtHash.{Members, lookup, HasUniqueKeys}
use kaf_katch.Sniffer.Window.{Network, open_flow, capture}

-- The node at `p` is one of the members.
unfoldable pub owns : ℕ → Members → Bool
owns p [] = false
owns p ((k, q) ∷ ms) = q == p || owns p ms

-- The members are distinct allocated nodes with distinct keys, and hold the flows.
abbrev pub Holds : {D : Type 0} → (ℕ → Option (Flow D)) → ℕ → Members → List (Flow D) → Type 0
Holds cell brk [] [] = Unit
Holds cell brk [] (f ∷ fs) = ⊥
Holds cell brk (m ∷ ms) [] = ⊥
Holds cell brk ((k, p) ∷ ms) (f ∷ fs) =
    (cell p ≡ some f)
    × (f.key ≡ k)
    × (p < brk)
    × (owns p ms ≡ false)
    × (lookup k ms ≡ none)
    × Holds cell brk ms fs

module _ {D : Type 0} where
  pub Holds-HasUniqueKeys :
      (cell : ℕ → Option (Flow D)) (brk : ℕ) (ms : Members) (fs : List (Flow D))
      → Holds cell brk ms fs
      → HasUniqueKeys ms
  Holds-HasUniqueKeys cell brk [] fs h = tt
  Holds-HasUniqueKeys cell brk ((k, p) ∷ ms) [] h = absurd h
  Holds-HasUniqueKeys cell brk ((k, p) ∷ ms) (f ∷ fs) h =
      (h.4, Holds-HasUniqueKeys cell brk ms fs h.5)

  pub Holds-no_members :
      (cell : ℕ → Option (Flow D)) (brk : ℕ) (fs : List (Flow D)) → Holds cell brk [] fs → fs ≡ []
  Holds-no_members cell brk [] h = refl
  Holds-no_members cell brk (f ∷ fs) h = absurd h

  -- What the members hold depends on their nodes alone.
  pub Holds-frame :
      (cell cell' : ℕ → Option (Flow D)) (brk brk' : ℕ) (ms : Members) (fs : List (Flow D))
      → brk ≤ brk'
      → ((q : ℕ) → q < brk → owns q ms ≡ true → cell' q ≡ cell q)
      → Holds cell brk ms fs
      → Holds cell' brk' ms fs
  unfolding owns
  Holds-frame cell cell' brk brk' [] [] le same h = tt
  Holds-frame cell cell' brk brk' [] (f ∷ fs) le same h = h
  Holds-frame cell cell' brk brk' (m ∷ ms) [] le same h = h
  Holds-frame cell cell' brk brk' ((k, p) ∷ ms) (f ∷ fs) le same h = (
    ground (arith, same p),
    h.1,
    omega arith,
    h.3,
    h.4,
    Holds-frame cell cell' brk brk' ms fs le (λ q lt o. ground (arith, same q)) h.5,
  )

  pub owns-fresh :
      (cell : ℕ → Option (Flow D)) (brk : ℕ) (ms : Members) (fs : List (Flow D))
      → Holds cell brk ms fs
      → (q : ℕ) → brk ≤ q
      → owns q ms ≡ false
  unfolding owns
  owns-fresh cell brk [] fs h q le = refl
  owns-fresh cell brk ((k, p) ∷ ms) [] h q le = absurd h
  owns-fresh cell brk ((k, p) ∷ ms) (f ∷ fs) h q le =
      ground (arith, owns-fresh cell brk ms fs h.5 q le)

  pub owned-lt :
      (cell : ℕ → Option (Flow D)) (brk : ℕ) (ms : Members) (fs : List (Flow D))
      → Holds cell brk ms fs
      → (q : ℕ) → owns q ms ≡ true
      → q < brk
  owned-lt cell brk ms fs h q o = elim (Bool-cases (ltb q brk)) [
    | inl below ↦ ground arith
    | inr above ↦ ground (arith, owns-fresh cell brk ms fs h q)
  ]

  pub Holds-update_other :
      (cell : ℕ → Option (Flow D)) (brk : ℕ) (ms : Members) (fs : List (Flow D)) (p : ℕ)
      (c : Option (Flow D))
      → owns p ms ≡ false
      → Holds cell brk ms fs
      → Holds (update cell p c) brk ms fs
  Holds-update_other cell brk ms fs p c o h =
      Holds-frame cell (update cell p c) brk brk ms fs (omega arith) (λ q lt e. ground arith) h

pub lookup-append_none :
    (k j : FlowKey) (p : ℕ) (ms : Members)
    → lookup k ms ≡ none
    → key_eq j k ≡ false
    → lookup k (ms ++ (j, p) ∷ []) ≡ none
unfolding lookup
lookup-append_none k j p [] h e = ground arith
lookup-append_none k j p ((i, q) ∷ ms) h e = ground (arith, lookup-append_none k j p ms)

pub owns-append :
    (q : ℕ) (k : FlowKey) (p : ℕ) (ms : Members)
    → owns q (ms ++ (k, p) ∷ []) ≡ (p == q || owns q ms)
unfolding owns
owns-append q k p [] = ground arith
owns-append q k p ((i, r) ∷ ms) = ground (arith, owns-append q k p ms)

module _ {D : Type 0} where
  -- A node at a new address becomes the last member.
  pub Holds-snoc :
      (cell : ℕ → Option (Flow D)) (brk : ℕ) (ms : Members) (fs : List (Flow D)) (f : Flow D)
      (key : FlowKey)
      → f.key ≡ key
      → lookup key ms ≡ none
      → Holds cell brk ms fs
      → Holds (update cell brk (some f)) (suc brk) (ms ++ (key, brk) ∷ []) (fs ++ f ∷ [])
  unfolding lookup owns
  Holds-snoc cell brk [] [] f key e new h = (ground arith, e, omega arith, refl, refl, tt)
  Holds-snoc cell brk [] (g ∷ fs) f key e new h = absurd h
  Holds-snoc cell brk (m ∷ ms) [] f key e new h = absurd h
  Holds-snoc cell brk ((k, p) ∷ ms) (g ∷ fs) f key e new h = (
    ground arith,
    h.1,
    omega arith,
    ground (arith, owns-append p key brk ms),
    lookup-append_none k key brk ms h.4 (ground (arith, key_eq_comm k key)),
    Holds-snoc cell brk ms fs f key e (ground arith) h.5,
  )

pub update-key :
    (F : Double) (f : Flow F.Carrier) (s : PktStats) → (flow_update_stats F f s).key ≡ f.key
unfolding flow_update_stats
update-key F f s = ground arith

module _ (F : Double) (net : Network) where
  -- A miss: the specification opens a flow at the end.
  pub capture-miss :
      (cell : ℕ → Option (Flow F.Carrier)) (brk : ℕ) (ms : Members) (fs : List (Flow F.Carrier))
      (s : PktStats)
      → lookup s.key ms ≡ none
      → Holds cell brk ms fs
      → capture F net s fs ≡ fs ++ flow_update_stats F (open_flow F net s.key) s ∷ []
  unfolding capture lookup
  capture-miss cell brk [] [] s new h = refl
  capture-miss cell brk [] (f ∷ fs) s new h = absurd h
  capture-miss cell brk (m ∷ ms) [] s new h = absurd h
  capture-miss cell brk ((k, p) ∷ ms) (f ∷ fs) s new h =
      ground (arith, capture-miss cell brk ms fs s (ground arith) h.5)

  -- A hit: the node of the key takes the packet, as in the specification.
  pub capture-hit :
      (cell : ℕ → Option (Flow F.Carrier)) (brk : ℕ) (ms : Members) (fs : List (Flow F.Carrier))
      (s : PktStats) (p : ℕ)
      → lookup s.key ms ≡ some p
      → Holds cell brk ms fs
      → (f : Flow F.Carrier) × (cell p ≡ some f)
        × (owns p ms ≡ true)
        × Holds (update cell p (some (flow_update_stats F f s))) brk ms (capture F net s fs)
  unfolding capture lookup owns
  capture-hit cell brk [] fs s p e h = cc
  capture-hit cell brk (m ∷ ms) [] s p e h = absurd h
  capture-hit cell brk ((k, q) ∷ ms) (f ∷ fs) s p e h = elim (Bool-cases (key_eq f.key s.key)) [
    | inl here ↦
        let at : q ≡ p = ground arith in
        let f' = flow_update_stats F f s in
        let apart = subst (λ r. owns r ms ≡ false) at h.3 in
        rw here (
          f,
          subst (λ r. cell r ≡ some f) at h.0,
          ground arith,
          (
            ground arith,
            update-key F f s ∙ h.1,
            h.2,
            h.3,
            h.4,
            Holds-update_other cell brk ms fs p (some f') apart h.5,
          ),
        )
    | inr later ↦
        let (g, held, mine, rest) = capture-hit cell brk ms fs s p (ground arith) h.5 in
        rw later (g, held, ground arith, (ground arith, h.1, h.2, h.3, h.4, rest))
  ]
