-- ===== src/Sniffer/Kafka/Json.antt =====
-- kafka_client_send_flows: the JSON text of a flow and its buffer.
use kaf_katch.Prelude.{ℕ, ◌≤◌, ◌<◌, ◌≡◌, length, take_all, arith}
use kaf_katch.Words.{ntohs, ntohs-lt}
use kaf_katch.Text.{length-join, length-decimal_u32, length-decimal_u16, length-inet_ntop}
use kaf_katch.Double.{Double}
use kaf_katch.Sniffer.Flow.{Flow, FlowDirection, outbound, inbound, lateral, unknown}
use kaf_katch.Sniffer.Flow.Types.{FitsTypes}
use kaf_katch.Sniffer.Kafka.{dir_to_str, proto_str, flow_json, json_payload, mean_iat}

length-dir_to_str : (d : FlowDirection) → length (dir_to_str d) ≤ 8
unfolding dir_to_str
length-dir_to_str outbound = omega arith
length-dir_to_str inbound = omega arith
length-dir_to_str lateral = omega arith
length-dir_to_str unknown = omega arith

pub length-proto_str : (p : ℕ) → length (proto_str p) ≤ 5
unfolding proto_str
length-proto_str p = ground arith

module _ (F : Double) (short : (d : F.Carrier) → length (F.print_1f d) ≤ 312) where
  length-flow_json : (f : Flow F.Carrier) → FitsTypes f → length (flow_json F f) < 1024
  unfolding flow_json
  length-flow_json f t = rw length-join (
      omega (
        arith,
        length-inet_ntop f.key.src_ip,
        length-inet_ntop f.key.dst_ip,
        length-decimal_u16 (ntohs f.key.src_port) (ntohs-lt _ t.src_port),
        length-decimal_u16 (ntohs f.key.dst_port) (ntohs-lt _ t.dst_port),
        length-proto_str f.key.protocol,
        length-dir_to_str f.direction,
        length-decimal_u32 f.packet_count t.packets,
        length-decimal_u32 f.byte_count t.bytes,
        length-decimal_u16 f.min_packet_size t.smallest,
        length-decimal_u16 f.max_packet_size t.largest,
        short (mean_iat F f),
        length-decimal_u32 f.tcp_syn_count t.syns,
        length-decimal_u32 f.tcp_ack_count t.acks,
        length-decimal_u32 f.tcp_fin_count t.fins,
        length-decimal_u32 f.tcp_rst_count t.rsts,
      ))

  -- The buffer of 1024 bytes is never too small: the message of a flow is its whole JSON text, if
  -- `%.1f` prints no more than 312 bytes, the most that a finite double takes.
  pub json_payload-whole : (f : Flow F.Carrier) → FitsTypes f → json_payload F f ≡ flow_json F f
  unfolding json_payload
  json_payload-whole f t = take_all 1023 (flow_json F f) (omega (arith, length-flow_json f t))
