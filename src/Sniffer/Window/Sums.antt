-- ===== src/Sniffer/Window/Sums.antt =====
-- The sums of the counters over the flows of a window and over its packets, by direction
-- (sniffer/src/flow.c).
use kaf_katch.Prelude.{
  ℕ, ◌+◌, ◌^◌, ◌≤◌, ◌<◌, ◌≡◌, refl, Bool, true, if◌then◌else◌, ◌&&◌, ◌==◌, List, [], ◌∷◌, length,
  All, arith,
}
use kaf_katch.Double.{Double}
use kaf_katch.Sniffer.Stats.{FlowKey, PktStats, key_eq_iff}
use kaf_katch.Sniffer.Flow.{
  Flow, FlowDirection, new_flow, flow_update_stats, infer_direction, has_flag, ipproto_tcp, th_syn,
  th_fin, th_rst, th_ack,
}
use kaf_katch.Sniffer.Flow.Summary.{IsSized, payload}
use kaf_katch.Sniffer.Window.{Network, open_flow, capture, window}
use kaf_katch.Sniffer.Window.Flows.{update-key}

-- The sum of a counter over the flows of some directions.
unfoldable pub sum_over : {D : Type 0} → (FlowDirection → Bool) → (Flow D → ℕ) → List (Flow D) → ℕ
sum_over wanted count [] = 0
sum_over wanted count (f ∷ fs) =
    if wanted f.direction then sum_over wanted count fs + count f else sum_over wanted count fs

abbrev pub any_direction : FlowDirection → Bool
any_direction d = true

pub sum_over-le :
    {D : Type 0} (wanted : FlowDirection → Bool) (count : Flow D → ℕ) (fs : List (Flow D))
    → sum_over wanted count fs ≤ sum_over any_direction count fs
unfolding sum_over
sum_over-le wanted count [] = omega arith
sum_over-le wanted count (f ∷ fs) = ground (arith, sum_over-le wanted count fs)

-- No flow counts more than all together.
pub All-count :
    {D : Type 0} (count : Flow D → ℕ) (bound : ℕ) (fs : List (Flow D))
    → sum_over any_direction count fs < bound
    → All (λ f. count f < bound) fs
unfolding sum_over
All-count count bound [] h = tt
All-count count bound (f ∷ fs) h = (omega arith, All-count count bound fs (omega arith))

-- What a packet weighs in the count of packets, and in that of a TCP flag.
abbrev pub one : PktStats → ℕ
one s = 1

abbrev pub mark : ℕ → PktStats → ℕ
mark flag s = if s.key.protocol == ipproto_tcp && has_flag s.tcp_flags flag then 1 else 0

module _ (net : Network) where
  abbrev direction_of_packet : PktStats → FlowDirection
  direction_of_packet s = infer_direction net.net_ip net.net_mask s.key

  -- The sum of what the packets of some directions weigh.
  unfoldable pub sum_of : (FlowDirection → Bool) → (PktStats → ℕ) → List PktStats → ℕ
  sum_of wanted weight [] = 0
  sum_of wanted weight (s ∷ history) =
      if wanted (direction_of_packet s)
      then sum_of wanted weight history + weight s
      else sum_of wanted weight history

module _ (F : Double) (net : Network) where
  abbrev IsDirected : Flow F.Carrier → Type 0
  IsDirected f = f.direction ≡ infer_direction net.net_ip net.net_mask f.key

  update-direction :
      (f : Flow F.Carrier) (s : PktStats) → (flow_update_stats F f s).direction ≡ f.direction
  unfolding flow_update_stats
  update-direction f s = ground arith

  open_flow-IsDirected : (k : FlowKey) → IsDirected (open_flow F net k)
  unfolding open_flow new_flow
  open_flow-IsDirected k = refl

  open_flow-direction :
      (k : FlowKey) → (open_flow F net k).direction ≡ infer_direction net.net_ip net.net_mask k
  unfolding open_flow
  open_flow-direction k = refl

  update-IsDirected :
      (f : Flow F.Carrier) (s : PktStats) → IsDirected f → IsDirected (flow_update_stats F f s)
  update-IsDirected f s h = cc (update-direction f s, update-key F net f s)

  capture-IsDirected :
      (s : PktStats) (fs : List (Flow F.Carrier))
      → All IsDirected fs
      → All IsDirected (capture F net s fs)
  unfolding capture
  capture-IsDirected s [] h =
      (update-IsDirected (open_flow F net s.key) s (open_flow-IsDirected s.key), tt)
  capture-IsDirected s (f ∷ fs) h =
      ground (arith, update-IsDirected f s h.0, capture-IsDirected s fs h.1)

  window-IsDirected : (history : List PktStats) → All IsDirected (window F net history)
  unfolding window
  window-IsDirected [] = tt
  window-IsDirected (s ∷ history) =
      capture-IsDirected s (window F net history) (window-IsDirected history)

  length-capture :
      (s : PktStats) (fs : List (Flow F.Carrier)) → length (capture F net s fs) ≤ length fs + 1
  unfolding capture
  length-capture s [] = omega arith
  length-capture s (f ∷ fs) = ground (arith, length-capture s fs)

  -- There are no more flows than packets.
  pub length-window : (history : List PktStats) → length (window F net history) ≤ length history
  unfolding window
  length-window [] = omega arith
  length-window (s ∷ history) =
      omega (arith, length-capture s (window F net history), length-window history)

  -- A counter that each packet increases by its weight, unless it wraps.
  pub record Counts (count : Flow F.Carrier → ℕ) (weight : PktStats → ℕ) : Type 0 where
    pub opens : (k : FlowKey) → count (open_flow F net k) ≡ 0
    pub updates :
        (f : Flow F.Carrier) (s : PktStats)
        → IsSized s
        → count f + weight s < 2 ^ 32
        → count (flow_update_stats F f s) ≡ count f + weight s

  module _ (count : Flow F.Carrier → ℕ) (weight : PktStats → ℕ) (law : Counts count weight) where
    capture-sum_over :
        (wanted : FlowDirection → Bool) (s : PktStats) (fs : List (Flow F.Carrier))
        → IsSized s
        → All IsDirected fs
        → sum_over any_direction count fs + weight s < 2 ^ 32
        → sum_over wanted count (capture F net s fs)
          ≡ sum_over wanted count fs
            + (if wanted (infer_direction net.net_ip net.net_mask s.key) then weight s else 0)
    unfolding capture sum_over
    capture-sum_over wanted s [] z h n =
        let f = open_flow F net s.key in
        ground (
          arith,
          law.updates f s z,
          law.opens s.key,
          update-direction f s,
          open_flow-direction s.key,
        )
    capture-sum_over wanted s (f ∷ fs) z h n = ground (
      arith,
      law.updates f s z,
      update-direction f s,
      key_eq_iff f.key s.key,
      capture-sum_over wanted s fs z h.1,
    )

    -- The sum over the flows of a window is the sum over its packets, direction by direction.
    pub window-sum_over :
        (wanted : FlowDirection → Bool) (history : List PktStats)
        → All IsSized history
        → sum_of net any_direction weight history < 2 ^ 32
        → sum_over wanted count (window F net history) ≡ sum_of net wanted weight history
    unfolding window sum_of
    window-sum_over wanted [] z n = unfold sum_over in refl
    window-sum_over wanted (s ∷ history) z n = ground (
      arith,
      window-sum_over wanted history z.1,
      window-sum_over any_direction history z.1,
      capture-sum_over wanted s (window F net history) z.0 (window-IsDirected history),
    )

    -- Then every flow of the window stays below the same bound.
    pub window-count_lt :
        (history : List PktStats) (bound : ℕ)
        → All IsSized history
        → bound ≤ 2 ^ 32
        → sum_of net any_direction weight history < bound
        → All (λ f. count f < bound) (window F net history)
    window-count_lt history bound z b n =
        All-count count bound (window F net history)
          (omega (arith, window-sum_over any_direction history z))

  pub packets_count : Counts (λ f. f.packet_count) one
  unfolding open_flow new_flow flow_update_stats
  packets_count = record { opens = λ k. refl; updates = λ f s z n. ground arith }

  pub bytes_count : Counts (λ f. f.byte_count) payload
  unfolding open_flow new_flow flow_update_stats
  bytes_count = record { opens = λ k. refl; updates = λ f s z n. ground arith }

  pub syns_count : Counts (λ f. f.tcp_syn_count) (mark th_syn)
  unfolding open_flow new_flow flow_update_stats
  syns_count = record { opens = λ k. refl; updates = λ f s z n. ground arith }

  pub fins_count : Counts (λ f. f.tcp_fin_count) (mark th_fin)
  unfolding open_flow new_flow flow_update_stats
  fins_count = record { opens = λ k. refl; updates = λ f s z n. ground arith }

  pub rsts_count : Counts (λ f. f.tcp_rst_count) (mark th_rst)
  unfolding open_flow new_flow flow_update_stats
  rsts_count = record { opens = λ k. refl; updates = λ f s z n. ground arith }

  pub acks_count : Counts (λ f. f.tcp_ack_count) (mark th_ack)
  unfolding open_flow new_flow flow_update_stats
  acks_count = record { opens = λ k. refl; updates = λ f s z n. ground arith }

  pub sum_of-one : (history : List PktStats) → sum_of net any_direction one history ≡ length history
  unfolding sum_of
  sum_of-one [] = refl
  sum_of-one (s ∷ history) = omega (arith, sum_of-one history)

  pub sum_of-mark :
      (flag : ℕ) (history : List PktStats)
      → sum_of net any_direction (mark flag) history ≤ length history
  unfolding sum_of
  sum_of-mark flag [] = omega arith
  sum_of-mark flag (s ∷ history) = ground (arith, sum_of-mark flag history)
