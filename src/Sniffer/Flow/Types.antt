-- ===== src/Sniffer/Flow/Types.antt =====
-- The fields of a flow and their C types (sniffer/src/flow.h).
use kaf_katch.Prelude.{◌^◌, ◌<◌, ◌≡◌, ◌⊎◌, arith}
use kaf_katch.Prelude.Int.{ℤ, pos, negsuc}
use kaf_katch.Words.{int_to_u16}
use kaf_katch.Double.{Double}
use kaf_katch.Sniffer.Stats.{FlowKey, PktStats}
use kaf_katch.Sniffer.Flow.{Flow, new_flow, flow_update_stats, ipproto_tcp, ipproto_udp}

-- The fields of a flow are within their C types.
pub record FitsTypes {D : Type 0} (f : Flow D) : Type 0 where
  pub src_port : f.key.src_port < 2 ^ 16
  pub dst_port : f.key.dst_port < 2 ^ 16
  pub packets : f.packet_count < 2 ^ 32
  pub bytes : f.byte_count < 2 ^ 32
  pub smallest : f.min_packet_size < 2 ^ 16
  pub largest : f.max_packet_size < 2 ^ 16
  pub syns : f.tcp_syn_count < 2 ^ 32
  pub fins : f.tcp_fin_count < 2 ^ 32
  pub rsts : f.tcp_rst_count < 2 ^ 32
  pub acks : f.tcp_ack_count < 2 ^ 32

-- A key as the parser makes it.
pub record KeyFits (k : FlowKey) : Type 0 where
  pub src_ip : k.src_ip < 2 ^ 32
  pub dst_ip : k.dst_ip < 2 ^ 32
  pub src_port : k.src_port < 2 ^ 16
  pub dst_port : k.dst_port < 2 ^ 16
  pub known : (k.protocol ≡ ipproto_tcp) ⊎ (k.protocol ≡ ipproto_udp)

int_to_u16-lt : (z : ℤ) → int_to_u16 z < 2 ^ 16
int_to_u16-lt (pos n) = omega arith
int_to_u16-lt (negsuc n) = omega arith

module _ (F : Double) where
  pub new_flow-FitsTypes : (k : FlowKey) → KeyFits k → FitsTypes (new_flow F k)
  unfolding new_flow
  new_flow-FitsTypes k h = omega arith

  pub flow_update_stats-FitsTypes :
      (f : Flow F.Carrier) (s : PktStats) → FitsTypes f → FitsTypes (flow_update_stats F f s)
  unfolding flow_update_stats
  flow_update_stats-FitsTypes f s h = ground (arith, int_to_u16-lt s.payload_size)
