-- ===== src/Sniffer/Window/Counts.antt =====
-- A window neither loses a packet nor counts it twice.
use kaf_katch.Prelude.{ℕ, ◌+◌, ◌%◌, ◌^◌, ◌≡◌, refl, List, [], ◌∷◌, length, All, arith}
use kaf_katch.Double.{Double}
use kaf_katch.Sniffer.Stats.{PktStats}
use kaf_katch.Sniffer.Flow.{Flow, new_flow, flow_update_stats}
use kaf_katch.Sniffer.Flow.Summary.{IsSized, total_payload, payload}
use kaf_katch.Sniffer.Window.{Network, open_flow, capture, window}

-- The packets and the payload bytes that a list of flows reports.
unfoldable pub packets : {D : Type 0} → List (Flow D) → ℕ
packets [] = 0
packets (f ∷ fs) = f.packet_count + packets fs

unfoldable pub bytes : {D : Type 0} → List (Flow D) → ℕ
bytes [] = 0
bytes (f ∷ fs) = f.byte_count + bytes fs

module _ (F : Double) (net : Network) where
  update-counts :
      (f : Flow F.Carrier) (s : PktStats)
      → IsSized s
      → ((flow_update_stats F f s).packet_count ≡ (f.packet_count + 1) % 2 ^ 32)
        × ((flow_update_stats F f s).byte_count ≡ (f.byte_count + payload s) % 2 ^ 32)
  unfolding flow_update_stats
  update-counts f s h = ground arith

  capture-counts :
      (s : PktStats) (fs : List (Flow F.Carrier))
      → IsSized s
      → (packets (capture F net s fs) % 2 ^ 32 ≡ (packets fs + 1) % 2 ^ 32)
        × (bytes (capture F net s fs) % 2 ^ 32 ≡ (bytes fs + payload s) % 2 ^ 32)
  unfolding capture packets bytes open_flow new_flow
  capture-counts s [] h = ground (arith, update-counts (open_flow F net s.key) s h)
  capture-counts s (f ∷ fs) h = ground (arith, update-counts f s h, capture-counts s fs h)

  -- Modulo 2 ^ 32, the width of the counters, the packets of the flows of a window add up to the
  -- packets captured, and their bytes to the payload captured, for payloads that fit a packet.
  pub window-counts :
      (history : List PktStats)
      → All IsSized history
      → (packets (window F net history) % 2 ^ 32 ≡ length history % 2 ^ 32)
        × (bytes (window F net history) % 2 ^ 32 ≡ total_payload history % 2 ^ 32)
  unfolding window packets bytes total_payload
  window-counts [] h = (refl, refl)
  window-counts (s ∷ history) h =
      ground (arith, capture-counts s (window F net history) h.0, window-counts history h.1)
