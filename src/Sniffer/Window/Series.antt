-- ===== src/Sniffer/Window/Series.antt =====
-- Several windows of the sniffer, the newest first: their flows and their packets
-- (sniffer/src/flow.c).
use kaf_katch.Prelude.{
  ℕ, ◌+◌, ◌^◌, ◌≤◌, ◌<◌, ◌≡◌, refl, sym, ap, ap₂, ◌∙◌, Bool, if◌then◌else◌, List, [], ◌∷◌, ◌++◌,
  length, length-append, All, All-append, Permᴰ, arith,
}
use mathlib.Core.List.{append_assoc}
use kaf_katch.Double.{Double}
use kaf_katch.Sniffer.Stats.{PktStats}
use kaf_katch.Sniffer.Flow.{Flow, FlowDirection}
use kaf_katch.Sniffer.Flow.Summary.{IsSized}
use kaf_katch.Sniffer.Window.{Network, window}
use kaf_katch.Sniffer.Window.Sums.{
  sum_over, sum_of, any_direction, Counts, window-sum_over, length-window,
}

abbrev pub packets_of : List (List PktStats) → List PktStats
packets_of [] = []
packets_of (history ∷ older) = history ++ packets_of older

pub packets_of-IsSized :
    (windows : List (List PktStats))
    → All (λ history. All IsSized history) windows
    → All IsSized (packets_of windows)
packets_of-IsSized [] h = tt
packets_of-IsSized (history ∷ older) h =
    All-append IsSized history (packets_of older) h.0 (packets_of-IsSized older h.1)

sum_over-append :
    {D : Type 0} (wanted : FlowDirection → Bool) (count : Flow D → ℕ) (fs gs : List (Flow D))
    → sum_over wanted count (fs ++ gs) ≡ sum_over wanted count fs + sum_over wanted count gs
unfolding sum_over
sum_over-append wanted count [] gs = omega arith
sum_over-append wanted count (f ∷ fs) gs = ground (arith, sum_over-append wanted count fs gs)

sum_over-swap :
    {D : Type 0} (wanted : FlowDirection → Bool) (count : Flow D → ℕ) (f g : Flow D)
    (fs : List (Flow D))
    → sum_over wanted count (f ∷ g ∷ fs) ≡ sum_over wanted count (g ∷ f ∷ fs)
unfolding sum_over
sum_over-swap wanted count f g fs = ground arith

-- The order of the flows does not matter.
pub sum_over-perm :
    {D : Type 0} (wanted : FlowDirection → Bool) (count : Flow D → ℕ) {fs gs : List (Flow D)}
    → Permᴰ fs gs
    → sum_over wanted count fs ≡ sum_over wanted count gs
unfolding sum_over
sum_over-perm wanted count Permᴰ.nil = refl
sum_over-perm wanted count (Permᴰ.cons e p) =
    ap₂ (λ f n. if wanted f.direction then n + count f else n) e (sum_over-perm wanted count p)
sum_over-perm wanted count (Permᴰ.swap {l = fs} e f) =
    ap₂ (λ x y. sum_over wanted count (x ∷ y ∷ fs)) e f ∙ sum_over-swap wanted count _ _ fs
sum_over-perm wanted count (Permᴰ.trans p q) =
    sum_over-perm wanted count p ∙ sum_over-perm wanted count q

module _ (net : Network) where
  sum_of-append :
      (wanted : FlowDirection → Bool) (weight : PktStats → ℕ) (xs ys : List PktStats)
      → sum_of net wanted weight (xs ++ ys)
        ≡ sum_of net wanted weight xs + sum_of net wanted weight ys
  unfolding sum_of
  sum_of-append wanted weight [] ys = omega arith
  sum_of-append wanted weight (x ∷ xs) ys = ground (arith, sum_of-append wanted weight xs ys)

module _ (F : Double) (net : Network) where
  -- The flows of all windows.
  abbrev pub flows_of : List (List PktStats) → List (Flow F.Carrier)
  flows_of [] = []
  flows_of (history ∷ older) = window F net history ++ flows_of older

  pub flows_of-append :
      (xs ys : List (List PktStats)) → flows_of (xs ++ ys) ≡ flows_of xs ++ flows_of ys
  flows_of-append [] ys = refl
  flows_of-append (history ∷ xs) ys =
      ap (λ fs. window F net history ++ fs) (flows_of-append xs ys)
      ∙ sym (append_assoc (window F net history) (flows_of xs) (flows_of ys))

  pub length-flows_of :
      (windows : List (List PktStats)) → length (flows_of windows) ≤ length (packets_of windows)
  length-flows_of [] = omega arith
  length-flows_of (history ∷ older) = omega (
    arith,
    length-append (window F net history) (flows_of older),
    length-append history (packets_of older),
    length-window F net history,
    length-flows_of older,
  )

  -- The sum over the flows is the sum over the packets, if it does not wrap in any window.
  pub sum_over-flows_of :
      (count : Flow F.Carrier → ℕ) (weight : PktStats → ℕ) (law : Counts F net count weight)
      (wanted : FlowDirection → Bool) (windows : List (List PktStats))
      → All (λ history. All IsSized history) windows
      → All (λ history. sum_of net any_direction weight history < 2 ^ 31) windows
      → sum_over wanted count (flows_of windows) ≡ sum_of net wanted weight (packets_of windows)
  sum_over-flows_of count weight law wanted [] z n = unfold sum_over in unfold sum_of in refl
  sum_over-flows_of count weight law wanted (history ∷ older) z n = omega (
    arith,
    sum_over-append wanted count (window F net history) (flows_of older),
    sum_of-append net wanted weight history (packets_of older),
    window-sum_over F net count weight law wanted history z.0 (omega arith),
    sum_over-flows_of count weight law wanted older z.1 n.1,
  )
