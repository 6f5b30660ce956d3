-- ===== src/Core/Parser/Message.antt =====
-- The message that the sniffer sends for a flow and the Flow that the service reads from it.
use kaf_katch.Prelude.{ℕ, ◌^◌, ◌<◌, ◌≡◌, ◌⊎◌, inl, inr, refl, ◌==◌, if◌then◌else◌, some, [], arith}
use kaf_katch.Prelude.Int.{ℤ, pos}
use kaf_katch.Words.{ntohs, ntohs-lt}
use kaf_katch.Text.{codes, join, inet_ntop}
use kaf_katch.Double.{Double}
use kaf_katch.Sniffer.Flow.{
  FlowDirection, outbound, inbound, lateral, unknown, ipproto_tcp, ipproto_udp,
}
use kaf_katch.Sniffer.Flow as SnifferFlow
use kaf_katch.Sniffer.Window.Types.{IsReportable}
use kaf_katch.Sniffer.Kafka.{flow_json, dir_to_str, proto_str, mean_iat}
use kaf_katch.Core.Flow as CoreFlow
use kaf_katch.Core.Flow.{
  FlowProtocol, tcp, udp, make_key, text_eq, protocol_value_of, direction_value_of,
}
use kaf_katch.Core.Jackson.{
  Jackson, Json, str, int, real, object, no_fields, field, print_onto, lookup_field,
}
use kaf_katch.Core.Parser.{read_json}

abbrev pub direction_of : FlowDirection → CoreFlow.FlowDirection
direction_of outbound = CoreFlow.outbound
direction_of inbound = CoreFlow.inbound
direction_of lateral = CoreFlow.lateral
direction_of unknown = CoreFlow.unknown

abbrev pub protocol_of : ℕ → FlowProtocol
protocol_of protocol = if protocol == ipproto_tcp then tcp else udp

module _ (F : Double) where
  -- The message of a flow as a value.
  unfoldable pub flow_value : SnifferFlow.Flow F.Carrier → Json
  flow_value f = object (
      field (codes "src_ip") (str (inet_ntop f.key.src_ip)) (
        field (codes "src_port") (int (ntohs f.key.src_port)) (
          field (codes "dst_ip") (str (inet_ntop f.key.dst_ip)) (
            field (codes "dst_port") (int (ntohs f.key.dst_port)) (
              field (codes "protocol") (str (proto_str f.key.protocol)) (
                field (codes "dir") (str (dir_to_str f.direction)) (
                  field (codes "packets") (int f.packet_count) (
                    field (codes "bytes") (int f.byte_count) (
                      field (codes "min_size") (int f.min_packet_size) (
                        field (codes "max_size") (int f.max_packet_size) (
                          field (codes "mean_iat_us") (real (F.print_1f (mean_iat F f))) (
                            field (codes "tcp")
                              (object (
                                field (codes "syn") (int f.tcp_syn_count) (
                                  field (codes "ack") (int f.tcp_ack_count) (
                                    field (codes "fin") (int f.tcp_fin_count)
                                      (field (codes "rst") (int f.tcp_rst_count) no_fields)))))
                              no_fields))))))))))))

  -- The sniffer writes the text of that value.
  flow_json-print : (f : SnifferFlow.Flow F.Carrier) → flow_json F f ≡ print_onto (flow_value f) []
  unfolding flow_json flow_value join print_onto
  flow_json-print f = refl

-- What the service should make of a flow.
module _ {T : Type 0} (F : Double) (J : Jackson F.Carrier) (local_time : ℤ → T) where
  abbrev pub reported : SnifferFlow.Flow F.Carrier → ℤ → CoreFlow.Flow T F.Carrier
  reported f kafka_timestamp = record {
    flow_key =
        make_key (inet_ntop f.key.src_ip) (pos (ntohs f.key.src_port)) (inet_ntop f.key.dst_ip)
          (pos (ntohs f.key.dst_port)) (protocol_of f.key.protocol);
    src_ip = inet_ntop f.key.src_ip;
    dst_ip = inet_ntop f.key.dst_ip;
    src_port = pos (ntohs f.key.src_port);
    dst_port = pos (ntohs f.key.dst_port);
    protocol = protocol_of f.key.protocol;
    dir = direction_of f.direction;
    packet_count = pos f.packet_count;
    byte_count = pos f.byte_count;
    min_packet_size = pos f.min_packet_size;
    max_packet_size = pos f.max_packet_size;
    timestamp = local_time kafka_timestamp;
    mean_iat_us = J.parse_double (F.print_1f (mean_iat F f));
    tcp_syn_count = pos f.tcp_syn_count;
    tcp_fin_count = pos f.tcp_fin_count;
    tcp_rst_count = pos f.tcp_rst_count;
    tcp_ack_count = pos f.tcp_ack_count;
  }

  -- The counters of a flow are no more than an `int` of Java holds.
  pub record FitsInts (f : SnifferFlow.Flow F.Carrier) : Type 0 where
    pub packets : f.packet_count < 2 ^ 31
    pub bytes : f.byte_count < 2 ^ 31
    pub syns : f.tcp_syn_count < 2 ^ 31
    pub fins : f.tcp_fin_count < 2 ^ 31
    pub rsts : f.tcp_rst_count < 2 ^ 31
    pub acks : f.tcp_ack_count < 2 ^ 31

  -- readTree reads the text of a value as that value.
  abbrev pub Reads : Json → Type 0
  Reads v = J.read_tree (print_onto v []) ≡ some (J.node v)

  direction_value_of-dir_to_str :
      (d : FlowDirection) → direction_value_of (dir_to_str d) ≡ some (direction_of d)
  unfolding direction_value_of dir_to_str
  direction_value_of-dir_to_str outbound = refl
  direction_value_of-dir_to_str inbound = refl
  direction_value_of-dir_to_str lateral = refl
  direction_value_of-dir_to_str unknown = refl

  protocol_value_of-proto_str :
      (p : ℕ)
      → (p ≡ ipproto_tcp) ⊎ (p ≡ ipproto_udp)
      → protocol_value_of (proto_str p) ≡ some (protocol_of p)
  unfolding protocol_value_of proto_str
  protocol_value_of-proto_str p (inl e) = ground arith
  protocol_value_of-proto_str p (inr e) = ground arith

  -- The service reads every message of the sniffer back: addresses, ports, protocol, direction and
  -- all counters, for every flow of parsed packets whose counters fit a Java `int` and whose text
  -- Jackson's readTree reads as JSON.
  pub read_json-flow_json :
      (f : SnifferFlow.Flow F.Carrier) (kafka_timestamp : ℤ)
      → IsReportable f
      → FitsInts f
      → Reads (flow_value F f)
      → read_json J local_time (flow_json F f) kafka_timestamp ≡ some (reported f kafka_timestamp)
  unfolding read_json flow_value lookup_field
  read_json-flow_json f kafka_timestamp h n reads = simp (
    flow_json-print F f,
    reads,
    J.get-node,
    J.as_text-node,
    J.as_double-node,
    protocol_value_of-proto_str f.key.protocol h.key.known,
    direction_value_of-dir_to_str f.direction,
    J.as_int-node (ntohs f.key.src_port) (omega (arith, ntohs-lt f.key.src_port)),
    J.as_int-node (ntohs f.key.dst_port) (omega (arith, ntohs-lt f.key.dst_port)),
    J.as_int-node f.packet_count n.packets,
    J.as_int-node f.byte_count n.bytes,
    J.as_int-node f.min_packet_size (omega (arith, h.fields.smallest)),
    J.as_int-node f.max_packet_size (omega (arith, h.fields.largest)),
    J.as_int-node f.tcp_syn_count n.syns,
    J.as_int-node f.tcp_fin_count n.fins,
    J.as_int-node f.tcp_rst_count n.rsts,
    J.as_int-node f.tcp_ack_count n.acks,
  )
