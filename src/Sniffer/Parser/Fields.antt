-- ===== src/Sniffer/Parser/Fields.antt =====
-- pkt_handler: what is known of every packet that reaches the flow table.
use kaf_katch.Prelude.{ℕ, ◌^◌, ◌<◌, ◌≡◌, ◌⊎◌, List, All-get_elem?, All, arith}
use kaf_katch.Prelude.Int.{pos, ◌-ℤ◌, ◌≤ℤ◌, int_laws}
use kaf_katch.Words.{ntohs-lt}
use kaf_katch.Sniffer.Stats.{PktStats}
use kaf_katch.Sniffer.Flow.{ipproto_tcp, ipproto_udp}
use kaf_katch.Sniffer.Flow.Summary.{IsSized}
use kaf_katch.Sniffer.Parser.{
  PcapPkthdr, go, load8, load16, load32, Transport, tcp_layer, udp_layer, transport_layer,
  network_layer, parse_frame,
}

abbrev pub AreOctets : List ℕ → Type 0
AreOctets = All (λ b. b < 256)

load8-lt : (bytes : List ℕ) (i b : ℕ) → AreOctets bytes → load8 bytes i ≡ go b → b < 256
unfolding load8
load8-lt bytes i b h e = grind (arith, λ (c : ℕ). All-get_elem? (λ c. c < 256) bytes i {x = c} h)

load16-lt : (bytes : List ℕ) (i x : ℕ) → AreOctets bytes → load16 bytes i ≡ go x → x < 2 ^ 16
unfolding load16
load16-lt bytes i x h e = grind (arith, load8-lt)

load32-lt : (bytes : List ℕ) (i x : ℕ) → AreOctets bytes → load32 bytes i ≡ go x → x < 2 ^ 32
unfolding load32
load32-lt bytes i x h e = grind (arith, load16-lt)

-- What the transport header may give, in a packet of `ip_tot_len` bytes.
record FitsPacket (protocol ip_tot_len : ℕ) (t : Transport) : Type 0 where
  src_port : t.src_port < 2 ^ 16
  dst_port : t.dst_port < 2 ^ 16
  tcp_flags : t.tcp_flags < 256
  payload_size : t.payload_size ≤ℤ pos ip_tot_len
  known : (protocol ≡ ipproto_tcp) ⊎ ((protocol ≡ ipproto_udp) × (t.tcp_flags ≡ 0))

sub_le : (a b c : ℕ) → pos a -ℤ pos b -ℤ pos c ≤ℤ pos a
sub_le a b c = omega int_laws

-- A packet that reaches the flow table: its fields fit their types, its payload fits an IPv4
-- packet, it is TCP or UDP, and its time is the capture time of the frame.
pub record IsPacket (h : PcapPkthdr) (s : PktStats) : Type 0 where
  pub src_ip : s.key.src_ip < 2 ^ 32
  pub dst_ip : s.key.dst_ip < 2 ^ 32
  pub src_port : s.key.src_port < 2 ^ 16
  pub dst_port : s.key.dst_port < 2 ^ 16
  pub flags : s.tcp_flags < 256
  pub sized : IsSized s
  pub known : (s.key.protocol ≡ ipproto_tcp) ⊎ ((s.key.protocol ≡ ipproto_udp) × (s.tcp_flags ≡ 0))
  pub captured : s.timestamp ≡ h.ts

module _ (h : PcapPkthdr) (bytes : List ℕ) (octets : AreOctets bytes) where
  transport_layer-FitsPacket :
      (protocol offset ip_hdrlen ip_tot_len : ℕ) (t : Transport)
      → transport_layer h bytes protocol offset ip_hdrlen ip_tot_len ≡ go t
      → FitsPacket protocol ip_tot_len t
  unfolding transport_layer tcp_layer udp_layer
  transport_layer-FitsPacket protocol offset ip_hdrlen ip_tot_len t e =
      grind (arith, load16-lt, load8-lt, sub_le)

  network_layer-IsPacket :
      (offset : ℕ) (s : PktStats) → network_layer h bytes offset ≡ go s → IsPacket h s
  unfolding network_layer
  network_layer-IsPacket offset s e =
      grind (arith, load16-lt, load8-lt, load32-lt, ntohs-lt, transport_layer-FitsPacket)

  -- Every packet that pkt_handler accepts has fields that fit their types, a payload size between 0
  -- and 65535 although the lengths in the packet are not checked against one another, and the
  -- protocol TCP or UDP, without TCP flags for UDP.
  pub parse_frame-IsPacket : (s : PktStats) → parse_frame h bytes ≡ go s → IsPacket h s
  unfolding parse_frame
  parse_frame-IsPacket s e = grind (arith, λ (x : ℕ × ℕ). network_layer-IsPacket x.0 s)
