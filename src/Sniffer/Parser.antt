-- ===== src/Sniffer/Parser.antt =====
-- sniffer/src/parser.c: pkt_handler, from a captured Ethernet frame to the flow table. The host is
-- little-endian, as the bit fields of `struct ip` and `struct tcphdr` are read here.
pub mod Bounds
pub mod Fields
pub mod Frame
pub mod Segment
pub mod Packet
use kaf_katch.Prelude.{
  ℕ, ◌+◌, ◌-◌, ◌*◌, ◌/◌, ◌%◌, Bool, true, false, not, Option, none, some, ◌==◌, ltb, if◌then◌else◌,
  List, get_elem?,
}
use kaf_katch.Prelude.Int.{ℤ, pos, ◌-ℤ◌, ltb_ℤ}
use kaf_katch.Words.{ntohs}
use kaf_katch.Double.{Double}
use kaf_katch.Sniffer.Stats.{FlowKey, Timeval, PktStats}
use kaf_katch.Sniffer.Flow.{ipproto_tcp, ipproto_udp}
use kaf_katch.Sniffer.Machine
use kaf_katch.Sniffer.UtHash.{UtHash}
use kaf_katch.Sniffer.Context.{Context, flow_process_packet}

-- `struct pcap_pkthdr`
pub record PcapPkthdr : Type 0 where
  pub ts : Timeval
  pub caplen : ℕ

-- The outcome of a part of pkt_handler: it goes on with a value, returns early, or reads outside
-- the captured bytes.
pub data Step {ℓ} (A : Type ℓ) : Type ℓ where
  go : A → Step A
  leave : Step A
  stray : Step A

infixl 5 ◌>>=◌ ◌>>◌
abbrev pub ◌>>=◌ {ℓ κ} : {A : Type ℓ} {B : Type κ} → Step A → (A → Step B) → Step B
go a >>= k = k a
leave >>= k = leave
stray >>= k = stray

abbrev pub ◌>>◌ {ℓ} : {B : Type ℓ} → Step (Unit {0}) → Step B → Step B
m >> k = m >>= λ _. k

-- `if (b) return;`
abbrev pub leave_if : Bool → Step (Unit {0})
leave_if true = leave
leave_if false = go tt

abbrev pub some_or_stray : Option ℕ → Step ℕ
some_or_stray none = stray
some_or_stray (some b) = go b

-- A byte of the frame, and its words as a little-endian host loads them.
unfoldable pub load8 : List ℕ → ℕ → Step ℕ
load8 bytes i = some_or_stray (get_elem? bytes i)

unfoldable pub load16 : List ℕ → ℕ → Step ℕ
unfolding load8
load16 bytes i = do low ← load8 bytes i; high ← load8 bytes (i + 1); go (low + 256 * high)

unfoldable pub load32 : List ℕ → ℕ → Step ℕ
load32 bytes i = do low ← load16 bytes i; high ← load16 bytes (i + 2); go (low + 65536 * high)

-- <net/ethernet.h> and the sizes of the headers
abbrev pub ethertype_vlan : ℕ
ethertype_vlan = 0x8100

abbrev pub ethertype_ip : ℕ
ethertype_ip = 0x0800

abbrev pub sizeof_ether_header : ℕ
sizeof_ether_header = 14

abbrev pub sizeof_ip : ℕ
sizeof_ip = 20

abbrev pub sizeof_tcphdr : ℕ
sizeof_tcphdr = 20

abbrev pub sizeof_udphdr : ℕ
sizeof_udphdr = 8

-- The offset of the layer 3 header and its type, behind a VLAN tag if there is one.
unfoldable pub link_layer : List ℕ → Step (ℕ × ℕ)
link_layer bytes = do
  ether_type ← load16 bytes 12
  if ntohs ether_type == ethertype_vlan
      then (do
        let offset = sizeof_ether_header + 4
        inner ← load16 bytes (offset - 2)
        go (offset, ntohs inner))
      else go (sizeof_ether_header, ntohs ether_type)

-- What the transport header adds to the statistics: ports, flags and payload size.
pub record Transport : Type 0 where
  pub src_port : ℕ
  pub dst_port : ℕ
  pub tcp_flags : ℕ
  pub payload_size : ℤ

unfoldable pub tcp_layer : PcapPkthdr → List ℕ → (offset ip_hdrlen ip_tot_len : ℕ) → Step Transport
tcp_layer h bytes offset ip_hdrlen ip_tot_len = do
  leave_if (ltb h.caplen (offset + ip_hdrlen + sizeof_tcphdr))
  let tcp_hdr = offset + ip_hdrlen
  th_sport ← load16 bytes tcp_hdr
  th_dport ← load16 bytes (tcp_hdr + 2)
  th_flags ← load8 bytes (tcp_hdr + 13)
  th_off ← load8 bytes (tcp_hdr + 12)
  let tcp_hdrlen = th_off / 16 * 4
  go (record {
    src_port = th_sport;
    dst_port = th_dport;
    tcp_flags = th_flags;
    payload_size = pos ip_tot_len -ℤ pos ip_hdrlen -ℤ pos tcp_hdrlen;
  })

unfoldable pub udp_layer : PcapPkthdr → List ℕ → (offset ip_hdrlen ip_tot_len : ℕ) → Step Transport
udp_layer h bytes offset ip_hdrlen ip_tot_len = do
  leave_if (ltb h.caplen (offset + ip_hdrlen + sizeof_udphdr))
  let udp_hdr = offset + ip_hdrlen
  uh_sport ← load16 bytes udp_hdr
  uh_dport ← load16 bytes (udp_hdr + 2)
  go (record {
    src_port = uh_sport;
    dst_port = uh_dport;
    tcp_flags = 0;
    payload_size = pos ip_tot_len -ℤ pos ip_hdrlen -ℤ pos 8;
  })

-- Any other protocol is ignored.
unfoldable pub transport_layer :
    PcapPkthdr → List ℕ → (protocol offset ip_hdrlen ip_tot_len : ℕ) → Step Transport
transport_layer h bytes protocol offset ip_hdrlen ip_tot_len =
    if protocol == ipproto_tcp
    then tcp_layer h bytes offset ip_hdrlen ip_tot_len
    else if protocol == ipproto_udp
    then udp_layer h bytes offset ip_hdrlen ip_tot_len
    else leave

abbrev pub clamp : ℤ → ℤ
clamp payload_size = if ltb_ℤ payload_size (pos 0) then pos 0 else payload_size

-- The IPv4 header at `offset`, and what follows it.
unfoldable pub network_layer : PcapPkthdr → List ℕ → (offset : ℕ) → Step PktStats
network_layer h bytes offset = do
  leave_if (ltb h.caplen (offset + sizeof_ip))
  first ← load8 bytes offset
  leave_if (not (first / 16 == 4))
  let ip_hdrlen = first % 16 * 4
  ip_len ← load16 bytes (offset + 2)
  ip_p ← load8 bytes (offset + 9)
  ip_src ← load32 bytes (offset + 12)
  ip_dst ← load32 bytes (offset + 16)
  t ← transport_layer h bytes ip_p offset ip_hdrlen (ntohs ip_len)
  go (record {
    key = record {
      src_ip = ip_src;
      dst_ip = ip_dst;
      src_port = t.src_port;
      dst_port = t.dst_port;
      protocol = ip_p;
    };
    payload_size = clamp t.payload_size;
    timestamp = h.ts;
    tcp_flags = t.tcp_flags;
  })

-- The statistics of the packet in a frame.
unfoldable pub parse_frame : PcapPkthdr → List ℕ → Step PktStats
parse_frame h bytes = do
  (offset, ether_type) ← link_layer bytes
  leave_if (not (ether_type == ethertype_ip))
  network_layer h bytes offset

module _ (F : Double) (U : UtHash) where
  open U use {Table}

  -- The end of pkt_handler. The mutex is held from before `flow_process_packet` until after it.
  unfoldable pub deliver : Context Table → Step PktStats → Machine.Prog F.Carrier (Context Table)
  deliver ctx (go stats) = flow_process_packet F U ctx stats
  deliver ctx leave = Machine.pure ctx
  deliver ctx stray = λ _. Machine.fault

  unfoldable pub pkt_handler :
      Context Table → PcapPkthdr → List ℕ → Machine.Prog F.Carrier (Context Table)
  unfolding deliver
  pkt_handler ctx h bytes = deliver ctx (parse_frame h bytes)
