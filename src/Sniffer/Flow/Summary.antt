-- ===== src/Sniffer/Flow/Summary.antt =====
-- What a flow should say of its packets. A history lists the packets of one flow, newest first.
use kaf_katch.Prelude.{
  ℕ, ◌+◌, ◌%◌, ◌^◌, ◌≡◌, ◌&&◌, ◌==◌, if◌then◌else◌, List, [], ◌∷◌, min, max, length,
}
use kaf_katch.Prelude.Int.{pos, pos_part, ◌≤ℤ◌}
use kaf_katch.Double.{Double}
use kaf_katch.Sniffer.Stats.{Timeval, PktStats}
use kaf_katch.Sniffer.Flow.{
  Flow, flow_update_stats, ipproto_tcp, th_syn, th_fin, th_rst, th_ack, has_flag,
}

-- A payload as the parser gives it: no more than an IPv4 packet holds.
abbrev pub IsSized : PktStats → Type 0
IsSized p = (pos 0 ≤ℤ p.payload_size) × (p.payload_size ≤ℤ pos 65535)

abbrev pub payload : PktStats → ℕ
payload p = pos_part p.payload_size

unfoldable pub total_payload : List PktStats → ℕ
total_payload [] = 0
total_payload (p ∷ ps) = total_payload ps + payload p

unfoldable pub least : PktStats → List PktStats → ℕ
least p [] = payload p
least p (q ∷ qs) = min (payload p) (least q qs)

unfoldable pub greatest : PktStats → List PktStats → ℕ
greatest p [] = payload p
greatest p (q ∷ qs) = max (payload p) (greatest q qs)

unfoldable pub first_time : PktStats → List PktStats → Timeval
first_time p [] = p.timestamp
first_time p (q ∷ qs) = first_time q qs

-- The TCP packets of a history that carry a flag.
unfoldable pub flagged : ℕ → List PktStats → ℕ
flagged flag [] = 0
flagged flag (p ∷ ps) =
    if p.key.protocol == ipproto_tcp && has_flag p.tcp_flags flag
    then flagged flag ps + 1
    else flagged flag ps

pub record Summary {D : Type 0} (flow : Flow D) (p : PktStats) (ps : List PktStats) : Type 0 where
  pub packets : flow.packet_count ≡ length ps + 1
  pub bytes : flow.byte_count ≡ total_payload (p ∷ ps) % 2 ^ 32
  pub smallest : flow.min_packet_size ≡ least p ps
  pub largest : flow.max_packet_size ≡ greatest p ps
  pub started : flow.start_time ≡ first_time p ps
  pub seen : flow.last_seen ≡ p.timestamp
  pub syns : flow.tcp_syn_count ≡ flagged th_syn (p ∷ ps)
  pub fins : flow.tcp_fin_count ≡ flagged th_fin (p ∷ ps)
  pub rsts : flow.tcp_rst_count ≡ flagged th_rst (p ∷ ps)
  pub acks : flow.tcp_ack_count ≡ flagged th_ack (p ∷ ps)

module _ (F : Double) where
  -- The flow after the packets of a history.
  unfoldable pub replay : Flow F.Carrier → List PktStats → Flow F.Carrier
  replay flow [] = flow
  replay flow (p ∷ ps) = flow_update_stats F (replay flow ps) p
