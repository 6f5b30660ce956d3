-- ===== src/Core/Uniques.antt =====
-- The keys that addFlow (AggregatedFlow.java of kafkatch-core) makes of the flows of the sniffer, and
-- those of their packets.
use kaf_katch.Prelude.{
  ℕ, ◌≡◌, refl, ap, ap₂, ◌∙◌, true, if◌then◌else◌, map, List, [], ◌∷◌, ◌++◌, Permᴰ, arith,
}
use mathlib.Core.List.{map-append}
use kaf_katch.Prelude.Int.{pos}
use kaf_katch.Words.{ntohs}
use kaf_katch.Double.{Double}
use kaf_katch.Text.{join, signed, inet_ntop}
use kaf_katch.Sniffer.Stats.{FlowKey, PktStats, key_eq_iff}
use kaf_katch.Sniffer.Flow.{Flow}
use kaf_katch.Sniffer.Window.{Network, open_flow, capture, window}
use kaf_katch.Sniffer.Window.Flows.{update-key, open_flow-key}
use kaf_katch.Sniffer.Window.Series.{packets_of, flows_of}
use kaf_katch.Core.Flow.{text_eq, protocol_name}
use kaf_katch.Core.Parser.Message.{protocol_of}
use kaf_katch.Core.Aggregate.{contains}

-- The text that addFlow makes of a key.
unfoldable pub text_key : FlowKey → List ℕ
text_key k = join (
    inet_ntop k.src_ip
    ∷ signed (pos (ntohs k.src_port))
    ∷ inet_ntop k.dst_ip
    ∷ signed (pos (ntohs k.dst_port))
    ∷ protocol_name (protocol_of k.protocol)
    ∷ [])

abbrev pub flow_texts : {D : Type 0} → List (Flow D) → List (List ℕ)
flow_texts fs = map (λ f. text_key f.key) fs

abbrev pub packet_texts : List PktStats → List (List ℕ)
packet_texts history = map (λ s. text_key s.key) history

contains-append :
    (key : List ℕ) (xs ys : List (List ℕ))
    → contains (xs ++ ys) key ≡ (if contains xs key then true else contains ys key)
contains-append key [] ys = ground arith
contains-append key (x ∷ xs) ys = ground (arith, contains-append key xs ys)

contains-swap :
    (key x y : List ℕ) (keys : List (List ℕ))
    → contains (x ∷ y ∷ keys) key ≡ contains (y ∷ x ∷ keys) key
contains-swap key x y keys = ground arith

pub contains-perm :
    (key : List ℕ) {xs ys : List (List ℕ)} → Permᴰ xs ys → contains xs key ≡ contains ys key
contains-perm key Permᴰ.nil = refl
contains-perm key (Permᴰ.cons e p) =
    ap₂ (λ x b. if text_eq x key then true else b) e (contains-perm key p)
contains-perm key (Permᴰ.swap {l = keys} e f) =
    ap₂ (λ x y. contains (x ∷ y ∷ keys) key) e f ∙ contains-swap key _ _ keys
contains-perm key (Permᴰ.trans p q) = contains-perm key p ∙ contains-perm key q

module _ (F : Double) (net : Network) where
  capture-contains :
      (key : List ℕ) (s : PktStats) (fs : List (Flow F.Carrier))
      → contains (flow_texts (capture F net s fs)) key
        ≡ contains (text_key s.key ∷ flow_texts fs) key
  unfolding capture
  capture-contains key s [] =
      ap (λ k. contains (text_key k ∷ []) key)
        (update-key F net (open_flow F net s.key) s ∙ open_flow-key F net s.key)
  capture-contains key s (f ∷ fs) =
      ground (arith, update-key F net f s, key_eq_iff f.key s.key, capture-contains key s fs)

  window-contains :
      (key : List ℕ) (history : List PktStats)
      → contains (flow_texts (window F net history)) key ≡ contains (packet_texts history) key
  unfolding window
  window-contains key [] = refl
  window-contains key (s ∷ history) =
      ground (arith, capture-contains key s (window F net history), window-contains key history)

  -- The flows of some windows have the keys of their packets.
  pub flows_of-contains :
      (key : List ℕ) (windows : List (List PktStats))
      → contains (flow_texts (flows_of F net windows)) key
        ≡ contains (packet_texts (packets_of windows)) key
  flows_of-contains key [] = refl
  flows_of-contains key (history ∷ older) = ground (
    arith,
    map-append (λ f. text_key f.key) (window F net history) (flows_of F net older),
    map-append (λ s. text_key s.key) history (packets_of older),
    contains-append key (flow_texts (window F net history)) (flow_texts (flows_of F net older)),
    contains-append key (packet_texts history) (packet_texts (packets_of older)),
    window-contains key history,
    flows_of-contains key older,
  )
