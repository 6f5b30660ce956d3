-- ===== src/Sniffer/Window/Flows.antt =====
-- A window holds one flow for each key, and that flow has seen the packets of the key in order.
use kaf_katch.Prelude.{◌≡◌, refl, Option, none, some, if◌then◌else◌, List, [], ◌∷◌, arith}
use kaf_katch.Double.{Double}
use kaf_katch.Sniffer.Stats.{FlowKey, PktStats, key_eq, key_eq_iff}
use kaf_katch.Sniffer.Flow.{Flow, new_flow, flow_update_stats}
use kaf_katch.Sniffer.Flow.Summary.{replay}
use kaf_katch.Sniffer.Window.{Network, open_flow, capture, window, find_flow, of_key}

abbrev pub HasDistinctKeys : {D : Type 0} → List (Flow D) → Type 0
HasDistinctKeys [] = Unit
HasDistinctKeys (f ∷ fs) = (find_flow f.key fs ≡ none) × HasDistinctKeys fs

module _ (F : Double) (net : Network) where
  pub update-key : (f : Flow F.Carrier) (s : PktStats) → (flow_update_stats F f s).key ≡ f.key
  unfolding flow_update_stats
  update-key f s = ground arith

  pub open_flow-key : (k : FlowKey) → (open_flow F net k).key ≡ k
  unfolding open_flow new_flow
  open_flow-key k = refl

  -- The flow of a key that is there, or a new one.
  abbrev or_open : FlowKey → Option (Flow F.Carrier) → Flow F.Carrier
  or_open k none = open_flow F net k
  or_open k (some f) = f

  find_flow-capture :
      (k : FlowKey) (s : PktStats) (fs : List (Flow F.Carrier))
      → find_flow k (capture F net s fs) ≡ (
          if key_eq s.key k
          then some (flow_update_stats F (or_open k (find_flow k fs)) s)
          else find_flow k fs)
  unfolding find_flow capture
  find_flow-capture k s [] =
      ground (arith, key_eq_iff s.key k, update-key (open_flow F net s.key) s, open_flow-key s.key)
  find_flow-capture k s (f ∷ fs) = ground (
    arith,
    key_eq_iff s.key k,
    key_eq_iff f.key s.key,
    key_eq_iff f.key k,
    update-key f s,
    find_flow-capture k s fs,
  )

  capture-HasDistinctKeys :
      (s : PktStats) (fs : List (Flow F.Carrier))
      → HasDistinctKeys fs
      → HasDistinctKeys (capture F net s fs)
  unfolding capture find_flow
  capture-HasDistinctKeys s [] h = (refl, tt)
  capture-HasDistinctKeys s (f ∷ fs) h = ground (
    arith,
    key_eq_iff f.key s.key,
    key_eq_iff s.key f.key,
    update-key f s,
    find_flow-capture f.key s fs,
    capture-HasDistinctKeys s fs h.1,
  )

  -- Whatever the packets, no two flows of a window have the same key.
  pub window-HasDistinctKeys : (history : List PktStats) → HasDistinctKeys (window F net history)
  unfolding window
  window-HasDistinctKeys [] = tt
  window-HasDistinctKeys (s ∷ history) =
      capture-HasDistinctKeys s (window F net history) (window-HasDistinctKeys history)

  -- What a window should hold for a key: nothing if no packet has it, and else a new flow with the
  -- direction of the key, updated by just the packets of the key, in their order.
  unfoldable pub flow_of : FlowKey → List PktStats → Option (Flow F.Carrier)
  flow_of k history = elim (of_key k history) [
    | [] ↦ none
    | p ∷ ps ↦ some (replay F (open_flow F net k) (p ∷ ps))
  ]

  or_open-flow_of :
      (k : FlowKey) (history : List PktStats)
      → or_open k (flow_of k history) ≡ replay F (open_flow F net k) (of_key k history)
  unfolding flow_of replay
  or_open-flow_of k history = ground arith

  -- The flow that a window holds for a key depends on the packets of that key alone: it is a new
  -- flow with the direction of the key, updated by them in order; without a packet there is none.
  pub find_flow-window :
      (k : FlowKey) (history : List PktStats)
      → find_flow k (window F net history) ≡ flow_of k history
  unfolding window flow_of of_key replay find_flow
  find_flow-window k [] = refl
  find_flow-window k (s ∷ history) = ground (
    arith,
    find_flow-capture k s (window F net history),
    find_flow-window k history,
    or_open-flow_of k history,
  )
