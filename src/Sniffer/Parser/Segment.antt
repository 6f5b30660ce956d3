-- ===== src/Sniffer/Parser/Segment.antt =====
-- pkt_handler on a TCP or a UDP header: the fields that it takes from it.
use kaf_katch.Prelude.{ℕ, ◌+◌, ◌*◌, ◌/◌, ◌%◌, ◌≤◌, ◌≡◌, ap, ◌∙◌, List, [], ◌∷◌, ◌++◌, length, arith}
use kaf_katch.Prelude.Int.{pos, ◌-ℤ◌}
use kaf_katch.Words.{ntohs}
use kaf_katch.Sniffer.Parser.{PcapPkthdr, go, load8, load16, tcp_layer, udp_layer}
use kaf_katch.Sniffer.Parser.Frame.{load8-at, load16-at}

pub record Tcp : Type 0 where
  pub source_port : ℕ
  pub destination_port : ℕ
  pub s0 : ℕ
  pub s1 : ℕ
  pub s2 : ℕ
  pub s3 : ℕ
  pub k0 : ℕ
  pub k1 : ℕ
  pub k2 : ℕ
  pub k3 : ℕ
  pub flags : ℕ
  pub win : ℕ
  pub sum : ℕ
  pub urgent : ℕ

-- A TCP header with `words` words of options, as far as the options.
abbrev pub tcp_header : Tcp → (words : ℕ) → List ℕ
tcp_header t words =
    (t.source_port / 256)
    ∷ (t.source_port % 256)
    ∷ (t.destination_port / 256)
    ∷ (t.destination_port % 256)
    ∷ t.s0
    ∷ t.s1
    ∷ t.s2
    ∷ t.s3
    ∷ t.k0
    ∷ t.k1
    ∷ t.k2
    ∷ t.k3
    ∷ ((5 + words) * 16)
    ∷ t.flags
    ∷ (t.win / 256)
    ∷ (t.win % 256)
    ∷ (t.sum / 256)
    ∷ (t.sum % 256)
    ∷ (t.urgent / 256)
    ∷ (t.urgent % 256)
    ∷ []

pub record Udp : Type 0 where
  pub source_port : ℕ
  pub destination_port : ℕ
  pub len : ℕ
  pub sum : ℕ

abbrev pub udp_header : Udp → List ℕ
udp_header u =
    (u.source_port / 256)
    ∷ (u.source_port % 256)
    ∷ (u.destination_port / 256)
    ∷ (u.destination_port % 256)
    ∷ (u.len / 256)
    ∷ (u.len % 256)
    ∷ (u.sum / 256)
    ∷ (u.sum % 256)
    ∷ []

-- A word in network byte order, as the host loads it.
pub raw_port : (port : ℕ) → port / 256 + 256 * (port % 256) ≡ ntohs port
unfolding ntohs
raw_port port = omega arith

module _ (h : PcapPkthdr) (pre rest : List ℕ) (offset ip_hdrlen ip_tot_len : ℕ)
    (at : offset + ip_hdrlen ≡ length pre) where
  pub tcp_layer-header :
      (t : Tcp) (words : ℕ)
      → length pre + 20 ≤ h.caplen
      → tcp_layer h (pre ++ (tcp_header t words ++ rest)) offset ip_hdrlen ip_tot_len
        ≡ go (record {
          src_port = ntohs t.source_port;
          dst_port = ntohs t.destination_port;
          tcp_flags = t.flags;
          payload_size = pos ip_tot_len -ℤ pos ip_hdrlen -ℤ pos ((5 + words) * 16 / 16 * 4);
        })
  unfolding tcp_layer
  tcp_layer-header t words room =
      let ys = tcp_header t words ++ rest in
      let start = offset + ip_hdrlen in
      let sport : load16 (pre ++ ys) start ≡ go (ntohs t.source_port) =
        unfold load16 load8 in
        load16-at pre ys start 0 (omega arith) ∙ ap go (raw_port t.source_port) in
      let dport : load16 (pre ++ ys) (start + 2) ≡ go (ntohs t.destination_port) =
        unfold load16 load8 in
        load16-at pre ys (start + 2) 2 (omega arith) ∙ ap go (raw_port t.destination_port) in
      let flags : load8 (pre ++ ys) (start + 13) ≡ go t.flags =
        unfold load8 in load8-at pre ys (start + 13) 13 (omega arith) in
      let off : load8 (pre ++ ys) (start + 12) ≡ go ((5 + words) * 16) =
        unfold load8 in load8-at pre ys (start + 12) 12 (omega arith) in
      ground (arith, sport, dport, flags, off)

  pub udp_layer-header :
      (u : Udp)
      → length pre + 8 ≤ h.caplen
      → udp_layer h (pre ++ (udp_header u ++ rest)) offset ip_hdrlen ip_tot_len
        ≡ go (record {
          src_port = ntohs u.source_port;
          dst_port = ntohs u.destination_port;
          tcp_flags = 0;
          payload_size = pos ip_tot_len -ℤ pos ip_hdrlen -ℤ pos 8;
        })
  unfolding udp_layer
  udp_layer-header u room =
      let ys = udp_header u ++ rest in
      let start = offset + ip_hdrlen in
      let sport : load16 (pre ++ ys) start ≡ go (ntohs u.source_port) =
        unfold load16 load8 in
        load16-at pre ys start 0 (omega arith) ∙ ap go (raw_port u.source_port) in
      let dport : load16 (pre ++ ys) (start + 2) ≡ go (ntohs u.destination_port) =
        unfold load16 load8 in
        load16-at pre ys (start + 2) 2 (omega arith) ∙ ap go (raw_port u.destination_port) in
      ground (arith, sport, dport)
