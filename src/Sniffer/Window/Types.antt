-- ===== src/Sniffer/Window/Types.antt =====
-- The flows of a window of parsed packets and their C types (sniffer/src/flow.h).
use kaf_katch.Prelude.{List, [], ◌∷◌, All, arith, subst, sym}
use kaf_katch.Double.{Double}
use kaf_katch.Sniffer.Stats.{FlowKey, PktStats}
use kaf_katch.Sniffer.Flow.{Flow, new_flow, flow_update_stats}
use kaf_katch.Sniffer.Flow.Types.{FitsTypes, KeyFits, flow_update_stats-FitsTypes}
use kaf_katch.Sniffer.Window.Flows.{update-key}
use kaf_katch.Sniffer.Window.{Network, open_flow, capture, window}

-- Packets as the parser makes them.
abbrev pub AreParsed : List PktStats → Type 0
AreParsed = All (λ (s : PktStats). KeyFits s.key)

-- A flow that the message of the export can show.
pub record IsReportable {D : Type 0} (f : Flow D) : Type 0 where
  pub fields : FitsTypes f
  pub key : KeyFits f.key

module _ (F : Double) (net : Network) where
  open_flow-IsReportable : (k : FlowKey) → KeyFits k → IsReportable (open_flow F net k)
  unfolding open_flow new_flow
  open_flow-IsReportable k h = record { fields = omega arith; key = h }

  update-IsReportable :
      (f : Flow F.Carrier) (s : PktStats) → IsReportable f → IsReportable (flow_update_stats F f s)
  update-IsReportable f s h = record {
    fields = flow_update_stats-FitsTypes F f s h.fields;
    key = subst KeyFits (sym (update-key F net f s)) h.key;
  }

  capture-IsReportable :
      (s : PktStats) (fs : List (Flow F.Carrier))
      → KeyFits s.key
      → All IsReportable fs
      → All IsReportable (capture F net s fs)
  unfolding capture
  capture-IsReportable s [] k h =
      (update-IsReportable (open_flow F net s.key) s (open_flow-IsReportable s.key k), tt)
  capture-IsReportable s (f ∷ fs) k h =
      ground (arith, update-IsReportable f s h.0, capture-IsReportable s fs k h.1)

  pub window-IsReportable :
      (history : List PktStats) → AreParsed history → All IsReportable (window F net history)
  unfolding window
  window-IsReportable [] h = tt
  window-IsReportable (s ∷ history) h =
      capture-IsReportable s (window F net history) h.0 (window-IsReportable history h.1)
