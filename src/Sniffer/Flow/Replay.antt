-- ===== src/Sniffer/Flow/Replay.antt =====
-- flow_update_stats: what the counters of a flow say after any history.
use kaf_katch.Prelude.{ℕ, ◌+◌, ◌^◌, ◌≤◌, ◌<◌, ◌≡◌, refl, List, [], ◌∷◌, length, All, arith}
use kaf_katch.Double.{Double}
use kaf_katch.Sniffer.Stats.{FlowKey, PktStats}
use kaf_katch.Sniffer.Flow.{Flow, new_flow, flow_update_stats, th_syn, th_fin, th_rst, th_ack}
use kaf_katch.Sniffer.Flow.Summary.{
  IsSized, total_payload, least, greatest, first_time, flagged, Summary, replay,
}

flagged-le : (flag : ℕ) (ps : List PktStats) → flagged flag ps ≤ length ps
unfolding flagged
flagged-le flag [] = omega arith
flagged-le flag (p ∷ ps) = ground (arith, flagged-le flag ps)

module _ (F : Double) where
  -- The first packet of a new flow.
  update-Summary_first :
      (key : FlowKey) (p : PktStats)
      → IsSized p
      → Summary (flow_update_stats F (new_flow F key) p) p []
  unfolding new_flow flow_update_stats total_payload least greatest first_time flagged
  update-Summary_first key p h = ground arith

  -- One packet more.
  pub update-Summary :
      (flow : Flow F.Carrier) (p q : PktStats) (qs : List PktStats)
      → IsSized p
      → length qs + 2 < 2 ^ 32
      → Summary flow q qs
      → Summary (flow_update_stats F flow p) p (q ∷ qs)
  unfolding flow_update_stats total_payload least greatest first_time flagged
  update-Summary flow p q qs h n s = record {
    packets = ground arith;
    bytes = ground arith;
    smallest = ground arith;
    largest = ground arith;
    started = ground arith;
    seen = ground arith;
    syns = ground (arith, flagged-le th_syn (q ∷ qs));
    fins = ground (arith, flagged-le th_fin (q ∷ qs));
    rsts = ground (arith, flagged-le th_rst (q ∷ qs));
    acks = ground (arith, flagged-le th_ack (q ∷ qs));
  }

  -- After any history of fewer than 2 ^ 32 packets of at most 65535 payload bytes each, a new flow
  -- counts its packets and its flags exactly, its bytes modulo 2 ^ 32, and holds the smallest and
  -- the largest payload and the times of the first and of the last packet.
  pub replay-Summary :
      (key : FlowKey) (p : PktStats) (ps : List PktStats)
      → All IsSized (p ∷ ps)
      → length ps + 1 < 2 ^ 32
      → Summary (replay F (new_flow F key) (p ∷ ps)) p ps
  unfolding replay
  replay-Summary key p [] h n = update-Summary_first key p h.0
  replay-Summary key p (q ∷ qs) h n =
      update-Summary (replay F (new_flow F key) (q ∷ qs)) p q qs h.0 (omega arith)
        (replay-Summary key q qs h.1 (omega arith))

  -- No update changes the key or the direction of a flow.
  pub replay-key_direction :
      (flow : Flow F.Carrier) (ps : List PktStats)
      → ((replay F flow ps).key ≡ flow.key) × ((replay F flow ps).direction ≡ flow.direction)
  unfolding replay flow_update_stats
  replay-key_direction flow [] = (refl, refl)
  replay-key_direction flow (p ∷ ps) = ground (arith, replay-key_direction flow ps)
