-- ===== src/Sniffer/Window.antt =====
-- The specification of a flow table: the flows of one window, in the order of their first packets.
pub mod Counts
pub mod Flows
pub mod Types
pub mod Sums
pub mod Series
use kaf_katch.Prelude.{ℕ, ◌+◌, Bool, Option, none, some, if◌then◌else◌, List, [], ◌∷◌, ◌++◌, map}
use kaf_katch.Double.{Double}
use kaf_katch.Sniffer.Stats.{FlowKey, PktStats, key_eq}
use kaf_katch.Sniffer.Flow.{Flow, new_flow, flow_update_stats, infer_direction}

-- The local network of `sniffer_context`.
pub record Network : Type 0 where
  pub net_ip : ℕ
  pub net_mask : ℕ

module _ (F : Double) (net : Network) where
  -- A new flow with its direction.
  unfoldable pub open_flow : FlowKey → Flow F.Carrier
  open_flow key = record (new_flow F key) {
    direction = infer_direction net.net_ip net.net_mask key;
  }

  -- One packet goes to the flow of its key, or opens a new flow at the end.
  unfoldable pub capture : PktStats → List (Flow F.Carrier) → List (Flow F.Carrier)
  capture s [] = flow_update_stats F (open_flow s.key) s ∷ []
  capture s (f ∷ fs) = if key_eq f.key s.key then flow_update_stats F f s ∷ fs else f ∷ capture s fs

  -- The flows of a window with the given packets, newest first.
  unfoldable pub window : List PktStats → List (Flow F.Carrier)
  window [] = []
  window (s ∷ history) = capture s (window history)

-- The flow of a key in a list of flows.
unfoldable pub find_flow : {D : Type 0} → FlowKey → List (Flow D) → Option (Flow D)
find_flow k [] = none
find_flow k (f ∷ fs) = if key_eq f.key k then some f else find_flow k fs

-- The packets of a key.
unfoldable pub of_key : FlowKey → List PktStats → List PktStats
of_key k [] = []
of_key k (s ∷ history) = if key_eq s.key k then s ∷ of_key k history else of_key k history
