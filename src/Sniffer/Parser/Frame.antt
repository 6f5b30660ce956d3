-- ===== src/Sniffer/Parser/Frame.antt =====
-- The frames that pkt_handler is made for, as the protocols lay them out: an Ethernet II header, a
-- VLAN tag or none, an IPv4 header with options, and a TCP header with options or a UDP header.
-- What follows the transport header may be cut off by the capture.
use kaf_katch.Prelude.{
  ℕ, ◌+◌, ◌*◌, ◌/◌, ◌%◌, ◌≡◌, refl, ap, List, [], ◌∷◌, ◌++◌, get_elem?, get_elem?-append, length,
  arith,
}
use kaf_katch.Words.{ntohs}
use kaf_katch.Sniffer.Parser.{go, load8, load16, load32, link_layer}

-- Reads behind a prefix.
pub load8-at : (pre ys : List ℕ) (i j : ℕ) → i ≡ length pre + j → load8 (pre ++ ys) i ≡ load8 ys j
unfolding load8
load8-at pre ys i j e = ground (arith, ap (get_elem? (pre ++ ys)) e, get_elem?-append pre ys j)

pub load16-at :
    (pre ys : List ℕ) (i j : ℕ) → i ≡ length pre + j → load16 (pre ++ ys) i ≡ load16 ys j
unfolding load16
load16-at pre ys i j e =
    rw (load8-at pre ys i j e, load8-at pre ys (i + 1) (j + 1) (omega arith)) refl

pub load32-at :
    (pre ys : List ℕ) (i j : ℕ) → i ≡ length pre + j → load32 (pre ++ ys) i ≡ load32 ys j
unfolding load32
load32-at pre ys i j e =
    rw (load16-at pre ys i j e, load16-at pre ys (i + 2) (j + 2) (omega arith)) refl

-- The six octets of an Ethernet address; the four of an IPv4 address.
pub record Mac : Type 0 where
  pub m0 : ℕ
  pub m1 : ℕ
  pub m2 : ℕ
  pub m3 : ℕ
  pub m4 : ℕ
  pub m5 : ℕ

pub record Address : Type 0 where
  pub a0 : ℕ
  pub a1 : ℕ
  pub a2 : ℕ
  pub a3 : ℕ

-- `s_addr` of an address on a little-endian host.
abbrev pub s_addr : Address → ℕ
s_addr a = a.a0 + 256 * a.a1 + 65536 * (a.a2 + 256 * a.a3)

pub data Link : Type 0 where
  plain : (dst src : Mac) → Link
  tagged : (dst src : Mac) (tci : ℕ) → Link

abbrev macs : Mac → Mac → List ℕ → List ℕ
macs d s rest =
    d.m0 ∷ d.m1 ∷ d.m2 ∷ d.m3 ∷ d.m4 ∷ d.m5 ∷ s.m0 ∷ s.m1 ∷ s.m2 ∷ s.m3 ∷ s.m4 ∷ s.m5 ∷ rest

abbrev pub link_header : Link → List ℕ
link_header (plain dst src) = macs dst src (0x08 ∷ 0x00 ∷ [])
link_header (tagged dst src tci) =
    macs dst src (0x81 ∷ 0x00 ∷ tci / 256 ∷ tci % 256 ∷ 0x08 ∷ 0x00 ∷ [])

pub record Ipv4 : Type 0 where
  pub tos : ℕ
  pub ident : ℕ
  pub fragment : ℕ
  pub ttl : ℕ
  pub checksum : ℕ
  pub source : Address
  pub destination : Address
  pub options : List ℕ

-- An IPv4 header with `words` words of options.
abbrev pub ip_header : Ipv4 → (words total protocol : ℕ) → List ℕ
ip_header p words total protocol =
    (64 + 5 + words)
    ∷ p.tos
    ∷ (total / 256)
    ∷ (total % 256)
    ∷ (p.ident / 256)
    ∷ (p.ident % 256)
    ∷ (p.fragment / 256)
    ∷ (p.fragment % 256)
    ∷ p.ttl
    ∷ protocol
    ∷ (p.checksum / 256)
    ∷ (p.checksum % 256)
    ∷ p.source.a0
    ∷ p.source.a1
    ∷ p.source.a2
    ∷ p.source.a3
    ∷ p.destination.a0
    ∷ p.destination.a1
    ∷ p.destination.a2
    ∷ p.destination.a3
    ∷ []

pub link_layer-header :
    (l : Link) (rest : List ℕ)
    → link_layer (link_header l ++ rest) ≡ go (length (link_header l), 0x0800)
unfolding link_layer load16 load8 ntohs
link_layer-header (plain dst src) rest = refl
link_layer-header (tagged dst src tci) rest = refl
