-- ===== src/Sniffer/Parser/Packet.antt =====
-- pkt_handler on the frames of `Frame`: the statistics that it takes from a TCP or a UDP packet.
use mathlib.Core.List.{append_assoc}
use kaf_katch.Prelude.{
  ℕ, ◌+◌, ◌*◌, ◌/◌, ◌%◌, ◌^◌, ◌≤◌, ◌<◌, ◌≡◌, refl, ap, ◌∙◌, List, ◌++◌, length, length-append,
  arith,
}
use kaf_katch.Prelude.Int.{pos, ◌-ℤ◌, int_laws}
use kaf_katch.Words.{ntohs, ntohs_involutive}
use kaf_katch.Sniffer.Stats.{PktStats}
use kaf_katch.Sniffer.Flow.{ipproto_tcp, ipproto_udp}
use kaf_katch.Sniffer.Parser.{
  PcapPkthdr, go, load8, load16, load32, Transport, tcp_layer, udp_layer, transport_layer,
  network_layer, parse_frame, clamp,
}
use kaf_katch.Sniffer.Parser.Segment.{
  raw_port, Tcp, Udp, tcp_header, udp_header, tcp_layer-header, udp_layer-header,
}
use kaf_katch.Sniffer.Parser.Frame.{
  load8-at, load16-at, load32-at, Link, link_header, Ipv4, ip_header, s_addr, link_layer-header,
}

module _ (h : PcapPkthdr) (pre : List ℕ) (p : Ipv4) (words total protocol : ℕ) (tail : List ℕ)
    (short : words ≤ 10) (fits : total < 2 ^ 16) (room : length pre + 20 ≤ h.caplen) where
  abbrev datagram : List ℕ
  datagram = pre ++ (ip_header p words total protocol ++ tail)

  network_layer-header :
      (t : Transport)
      → transport_layer h datagram protocol (length pre) (20 + 4 * words) total ≡ go t
      → network_layer h datagram (length pre)
        ≡ go (record {
          key = record {
            src_ip = s_addr p.source;
            dst_ip = s_addr p.destination;
            src_port = t.src_port;
            dst_port = t.dst_port;
            protocol = protocol;
          };
          payload_size = clamp t.payload_size;
          timestamp = h.ts;
          tcp_flags = t.tcp_flags;
        })
  unfolding network_layer
  network_layer-header t next =
      let ys = ip_header p words total protocol ++ tail in
      let at = length pre in
      let first : load8 datagram at ≡ go (64 + 5 + words) =
        unfold load8 in load8-at pre ys at 0 (omega arith) in
      let ip_len : load16 datagram (at + 2) ≡ go (ntohs total) =
        unfold load16 load8 in load16-at pre ys (at + 2) 2 refl ∙ ap go (raw_port total) in
      let ip_p : load8 datagram (at + 9) ≡ go protocol =
        unfold load8 in load8-at pre ys (at + 9) 9 refl in
      let ip_src : load32 datagram (at + 12) ≡ go (s_addr p.source) =
        unfold load32 load16 load8 in load32-at pre ys (at + 12) 12 refl in
      let ip_dst : load32 datagram (at + 16) ≡ go (s_addr p.destination) =
        unfold load32 load16 load8 in load32-at pre ys (at + 16) 16 refl in
      let hdrlen : (64 + 5 + words) % 16 * 4 ≡ 20 + 4 * words = omega arith in
      let whole : ntohs (ntohs total) ≡ total = ntohs_involutive total fits in
      let next' : transport_layer h datagram protocol at ((64 + 5 + words) % 16 * 4)
            (ntohs (ntohs total))
          ≡ go t =
        rw (hdrlen, whole) next in
      ground (arith, first, ip_len, ip_p, ip_src, ip_dst, next')

transport_layer-tcp :
    (h : PcapPkthdr) (b : List ℕ) (o l n : ℕ)
    → transport_layer h b ipproto_tcp o l n ≡ tcp_layer h b o l n
unfolding transport_layer
transport_layer-tcp h b o l n = refl

transport_layer-udp :
    (h : PcapPkthdr) (b : List ℕ) (o l n : ℕ)
    → transport_layer h b ipproto_udp o l n ≡ udp_layer h b o l n
unfolding transport_layer
transport_layer-udp h b o l n = refl

-- What pkt_handler should take from a packet with `n` payload bytes.
abbrev pub stats_of : PcapPkthdr → Ipv4 → (protocol source destination flags n : ℕ) → PktStats
stats_of h p protocol source destination flags n = record {
  key = record {
    src_ip = s_addr p.source;
    dst_ip = s_addr p.destination;
    src_port = ntohs source;
    dst_port = ntohs destination;
    protocol = protocol;
  };
  payload_size = pos n;
  timestamp = h.ts;
  tcp_flags = flags;
}

regroup : (a b c d : List ℕ) → a ++ (b ++ (c ++ d)) ≡ ((a ++ b) ++ c) ++ d
regroup a b c d = simp append_assoc

-- A frame with a TCP packet: `n` bytes of payload, of which `rest` holds what was captured, behind
-- the options.
abbrev pub tcp_frame : Link → Ipv4 → Tcp → (words tcp_words n : ℕ) → (rest : List ℕ) → List ℕ
tcp_frame l p t words tcp_words n rest =
    link_header l
    ++ (ip_header p words (20 + 4 * words + (20 + 4 * tcp_words) + n) ipproto_tcp
        ++ (p.options ++ (tcp_header t tcp_words ++ rest)))

abbrev pub udp_frame : Link → Ipv4 → Udp → (words n : ℕ) → (rest : List ℕ) → List ℕ
udp_frame l p u words n rest =
    link_header l
    ++ (ip_header p words (20 + 4 * words + 8 + n) ipproto_udp
        ++ (p.options ++ (udp_header u ++ rest)))

-- From any frame with a TCP packet, with a VLAN tag or without, with any IPv4 and TCP options, cut
-- off anywhere behind the fixed TCP header, pkt_handler takes the addresses, the ports, the flags
-- and the exact size of the payload on the wire, if the packet is no longer than IPv4 allows.
pub parse_frame-tcp :
    (h : PcapPkthdr) (l : Link) (p : Ipv4) (t : Tcp) (words tcp_words n : ℕ) (rest : List ℕ)
    → words ≤ 10
    → tcp_words ≤ 10
    → length p.options ≡ 4 * words
    → 20 + 4 * words + (20 + 4 * tcp_words) + n < 2 ^ 16
    → h.caplen ≡ length (tcp_frame l p t words tcp_words n rest)
    → parse_frame h (tcp_frame l p t words tcp_words n rest)
      ≡ go (stats_of h p ipproto_tcp t.source_port t.destination_port t.flags n)
unfolding parse_frame
parse_frame-tcp h l p t words tcp_words n rest short tshort opts fits captured =
    let total = 20 + 4 * words + (20 + 4 * tcp_words) + n in
    let link = link_header l in
    let ip = ip_header p words total ipproto_tcp in
    let seg = tcp_header t tcp_words ++ rest in
    let tail = p.options ++ seg in
    let lens = length-append link (ip ++ tail) in
    let lens2 = length-append p.options seg in
    let lens3 = length-append (link ++ ip) p.options in
    let lens4 = length-append link ip in
    let bytes : link ++ (ip ++ tail) ≡ ((link ++ ip) ++ p.options) ++ seg =
      regroup link ip p.options seg in
    let size : pos total -ℤ pos (20 + 4 * words) -ℤ pos ((5 + tcp_words) * 16 / 16 * 4) ≡ pos n =
      omega int_laws in
    let segment =
      tcp_layer-header h ((link ++ ip) ++ p.options) rest (length link) (20 + 4 * words) total
        (omega arith) t tcp_words (omega arith) in
    let transport =
      transport_layer-tcp h _ (length link) (20 + 4 * words) total
      ∙ ap (λ b. tcp_layer h b (length link) (20 + 4 * words) total) bytes
      ∙ segment in
    let net =
      network_layer-header h link p words total ipproto_tcp tail short fits (omega arith) _
        transport in
    ground (arith, link_layer-header l (ip ++ tail), net, size)

-- From any frame with a UDP packet, with a VLAN tag or without, with any IPv4 options, cut off
-- anywhere behind the UDP header, pkt_handler takes the addresses, the ports, no flags and the
-- exact size of the payload on the wire, if the packet is no longer than IPv4 allows.
pub parse_frame-udp :
    (h : PcapPkthdr) (l : Link) (p : Ipv4) (u : Udp) (words n : ℕ) (rest : List ℕ)
    → words ≤ 10
    → length p.options ≡ 4 * words
    → 20 + 4 * words + 8 + n < 2 ^ 16
    → h.caplen ≡ length (udp_frame l p u words n rest)
    → parse_frame h (udp_frame l p u words n rest)
      ≡ go (stats_of h p ipproto_udp u.source_port u.destination_port 0 n)
unfolding parse_frame
parse_frame-udp h l p u words n rest short opts fits captured =
    let total = 20 + 4 * words + 8 + n in
    let link = link_header l in
    let ip = ip_header p words total ipproto_udp in
    let seg = udp_header u ++ rest in
    let tail = p.options ++ seg in
    let lens = length-append link (ip ++ tail) in
    let lens2 = length-append p.options seg in
    let lens3 = length-append (link ++ ip) p.options in
    let lens4 = length-append link ip in
    let bytes : link ++ (ip ++ tail) ≡ ((link ++ ip) ++ p.options) ++ seg =
      regroup link ip p.options seg in
    let size : pos total -ℤ pos (20 + 4 * words) -ℤ pos 8 ≡ pos n = omega int_laws in
    let segment =
      udp_layer-header h ((link ++ ip) ++ p.options) rest (length link) (20 + 4 * words) total
        (omega arith) u (omega arith) in
    let transport =
      transport_layer-udp h _ (length link) (20 + 4 * words) total
      ∙ ap (λ b. udp_layer h b (length link) (20 + 4 * words) total) bytes
      ∙ segment in
    let net =
      network_layer-header h link p words total ipproto_udp tail short fits (omega arith) _
        transport in
    ground (arith, link_layer-header l (ip ++ tail), net, size)
