-- ===== src/Sniffer/Parser/Bounds.antt =====
-- pkt_handler: which reads lie outside the captured bytes.
use kaf_katch.Prelude.{
  ℕ, ◌+◌, ◌<◌, ◌≡◌, ◌≢◌, ◌⊎◌, ◌↔◌, some, List, get_elem?, get_elem?-some, get_elem?-none,
  All-get_elem?, length, All, arith,
}
use kaf_katch.Words.{ntohs}
use kaf_katch.Sniffer.Parser.{
  PcapPkthdr, stray, load8, load16, load32, link_layer, tcp_layer, udp_layer, transport_layer,
  network_layer, parse_frame,
}

load8-ne-stray : (bytes : List ℕ) (i : ℕ) → i < length bytes → load8 bytes i ≢ stray
unfolding load8
load8-ne-stray bytes i h = ground (arith, get_elem?-some bytes i h)

load16-ne-stray : (bytes : List ℕ) (i : ℕ) → i + 1 < length bytes → load16 bytes i ≢ stray
unfolding load16 load8
load16-ne-stray bytes i h =
    ground (arith, get_elem?-some bytes i (omega arith), get_elem?-some bytes (i + 1) h)

load32-ne-stray : (bytes : List ℕ) (i : ℕ) → i + 3 < length bytes → load32 bytes i ≢ stray
unfolding load32
load32-ne-stray bytes i h =
    ground
      (arith, load16-ne-stray bytes i (omega arith), load16-ne-stray bytes (i + 2) (omega arith))

tcp_layer-ne-stray :
    (h : PcapPkthdr) (bytes : List ℕ) (offset ip_hdrlen ip_tot_len : ℕ)
    → h.caplen ≡ length bytes
    → tcp_layer h bytes offset ip_hdrlen ip_tot_len ≢ stray
unfolding tcp_layer
tcp_layer-ne-stray h bytes offset ip_hdrlen ip_tot_len e =
    let start = offset + ip_hdrlen in
    ground (
      arith,
      load16-ne-stray bytes start,
      load16-ne-stray bytes (start + 2),
      load8-ne-stray bytes (start + 13),
      load8-ne-stray bytes (start + 12),
    )

udp_layer-ne-stray :
    (h : PcapPkthdr) (bytes : List ℕ) (offset ip_hdrlen ip_tot_len : ℕ)
    → h.caplen ≡ length bytes
    → udp_layer h bytes offset ip_hdrlen ip_tot_len ≢ stray
unfolding udp_layer
udp_layer-ne-stray h bytes offset ip_hdrlen ip_tot_len e =
    let start = offset + ip_hdrlen in
    ground (arith, load16-ne-stray bytes start, load16-ne-stray bytes (start + 2))

transport_layer-ne-stray :
    (h : PcapPkthdr) (bytes : List ℕ) (protocol offset ip_hdrlen ip_tot_len : ℕ)
    → h.caplen ≡ length bytes
    → transport_layer h bytes protocol offset ip_hdrlen ip_tot_len ≢ stray
unfolding transport_layer
transport_layer-ne-stray h bytes protocol offset ip_hdrlen ip_tot_len e = ground (
  arith,
  tcp_layer-ne-stray h bytes offset ip_hdrlen ip_tot_len e,
  udp_layer-ne-stray h bytes offset ip_hdrlen ip_tot_len e,
)

-- Behind the check of the IPv4 header nothing is read outside the captured bytes, whatever the
-- header lengths in the packet say.
network_layer-ne-stray :
    (h : PcapPkthdr) (bytes : List ℕ) (offset : ℕ)
    → h.caplen ≡ length bytes
    → network_layer h bytes offset ≢ stray
unfolding network_layer
network_layer-ne-stray h bytes offset e = grind (
  arith,
  transport_layer-ne-stray,
  load8-ne-stray bytes offset,
  load16-ne-stray bytes (offset + 2),
  load8-ne-stray bytes (offset + 9),
  load32-ne-stray bytes (offset + 12),
  load32-ne-stray bytes (offset + 16),
)

-- The type of the frame says that a VLAN tag follows.
abbrev pub HasVlanTag : List ℕ → Type 0
HasVlanTag bytes = (get_elem? bytes 12 ≡ some 0x81) × (get_elem? bytes 13 ≡ some 0x00)

byte_lt :
    (bytes : List ℕ) (i b : ℕ) → All (λ b. b < 256) bytes → get_elem? bytes i ≡ some b → b < 256
byte_lt bytes i b h e = All-get_elem? (λ c. c < 256) bytes i h e

link_layer-stray :
    (bytes : List ℕ)
    → All (λ b. b < 256) bytes
    → link_layer bytes ≡ stray
    → (length bytes < 14) ⊎ (HasVlanTag bytes × (length bytes < 18))
unfolding link_layer load16 load8 ntohs
link_layer-stray bytes h e = grind (
  arith,
  byte_lt,
  get_elem?-some bytes 12,
  get_elem?-some bytes 13,
  get_elem?-some bytes 16,
  get_elem?-some bytes 17,
)

stray-link_layer :
    (bytes : List ℕ)
    → (length bytes < 14) ⊎ (HasVlanTag bytes × (length bytes < 18))
    → link_layer bytes ≡ stray
unfolding link_layer load16 load8 ntohs
stray-link_layer bytes h = ground (
  arith,
  get_elem?-none bytes 12,
  get_elem?-none bytes 13,
  get_elem?-none bytes 16,
  get_elem?-none bytes 17,
)

-- For a header whose `caplen` is the number of captured bytes, pkt_handler reads outside them in
-- exactly two cases: fewer than 14 bytes, which do not hold the Ethernet header, and fewer than 18
-- in a frame whose type announces a VLAN tag. Neither length is checked.
pub parse_frame-stray_iff :
    (h : PcapPkthdr) (bytes : List ℕ)
    → h.caplen ≡ length bytes
    → All (λ b. b < 256) bytes
    → (parse_frame h bytes ≡ stray)
      ↔ ((length bytes < 14) ⊎ (HasVlanTag bytes × (length bytes < 18)))
unfolding parse_frame
parse_frame-stray_iff h bytes e octets = (
  λ s. link_layer-stray bytes octets (grind (arith, network_layer-ne-stray)),
  λ short. rw (stray-link_layer bytes short, parse_frame),
)
