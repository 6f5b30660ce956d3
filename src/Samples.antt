-- ===== src/Samples.antt =====
-- Concrete inputs for the tests: doubles that are integers, a small network, two frames, and a run
-- of the two threads over them.
pub mod Services
pub mod Alerts
pub mod Toasts
use kaf_katch.Prelude.{arith, ℕ, ◌+◌, ◌*◌, refl, List, [], ◌∷◌, length}
use kaf_katch.Prelude.Int.{ℤ, pos, ◌+ℤ◌, ◌*ℤ◌}
use kaf_katch.Words.{ntohs}
use kaf_katch.Text.{codes}
use kaf_katch.Double.{Double, IsExact}
use kaf_katch.Sniffer.Startup.{Host, producer_new, pcap_create, pcap_datalink}
use kaf_katch.Sniffer.Stats.{Timeval, key_eq}
use kaf_katch.Sniffer.Flow.{infer_direction, new_flow, flow_update_stats}
use kaf_katch.Sniffer.UtHash.{lookup, list_table}
use kaf_katch.Sniffer.Window.{Network}
use kaf_katch.Sniffer.Context.{touch, flow_process_packet, table_at, set_table}
use kaf_katch.Sniffer.Parser.{
  PcapPkthdr, load16, load32, link_layer, tcp_layer, udp_layer, transport_layer, network_layer,
  parse_frame, pkt_handler,
}
use kaf_katch.Sniffer.Parser.Frame.{plain, tagged, Mac, Address, Ipv4}
use kaf_katch.Sniffer.Parser.Packet.{tcp_frame, udp_frame}
use kaf_katch.Sniffer.Parser.Segment.{Tcp, Udp}
use kaf_katch.Sniffer.Kafka.{send_one}
use kaf_katch.Sniffer.System.{
  exchange_tables, System, Reaches, here, next, captures, stops, wakes, exchanges, sends, finishes,
  start,
}

-- Sums and products of integers, and a quotient that keeps the dividend.
abbrev pub int_double : Double
int_double = record {
  Carrier = ℤ;
  of_int = λ z. z;
  add = ◌+ℤ◌;
  mul = ◌*ℤ◌;
  div = λ a b. a;
  print_1f = λ z. codes "0.0";
}

pub int_double-IsExact : IsExact int_double
int_double-IsExact = record { of_int-add = λ a b _ _ _. refl; of_int-mul = λ a b _ _ _. refl }

abbrev pub mac : Mac
mac = record { m0 = 2; m1 = 0; m2 = 0; m3 = 0; m4 = 0; m5 = 1 }

abbrev pub laptop : Address
laptop = record { a0 = 10; a1 = 42; a2 = 1; a3 = 228 }

abbrev pub server : Address
server = record { a0 = 216; a1 = 239; a2 = 32; a3 = 223 }

-- 10.42.1.0/24
abbrev pub lan : Network
lan = record { net_ip = 10 + 256 * 42 + 65536 * 1; net_mask = 0xffffff }

abbrev pub upload : Ipv4
upload = record {
  tos = 0;
  ident = 7;
  fragment = 0;
  ttl = 64;
  checksum = 0;
  source = laptop;
  destination = server;
  options = [];
}

abbrev pub syn : Tcp
syn = record {
  source_port = 45764;
  destination_port = 443;
  s0 = 0;
  s1 = 0;
  s2 = 0;
  s3 = 0;
  k0 = 0;
  k1 = 0;
  k2 = 0;
  k3 = 0;
  flags = 2;
  win = 1024;
  sum = 0;
  urgent = 0;
}

abbrev pub query : Udp
query = record { source_port = 5353; destination_port = 53; len = 12; sum = 0 }

abbrev pub syn_frame : List ℕ
syn_frame = tcp_frame (plain mac mac) upload syn 0 1 3 (1 ∷ 1 ∷ 1 ∷ 0 ∷ 65 ∷ [])

abbrev pub query_frame : List ℕ
query_frame = udp_frame (tagged mac mac 5) upload query 0 4 (65 ∷ 66 ∷ 67 ∷ 68 ∷ [])

abbrev pub noon : Timeval
noon = record { tv_sec = pos 1000; tv_usec = pos 250 }

abbrev pub syn_header : PcapPkthdr
syn_header = record { ts = noon; caplen = length syn_frame }

abbrev pub query_header : PcapPkthdr
query_header = record { ts = noon; caplen = length query_frame }

abbrev pub starting : System int_double list_table
starting = start int_double list_table lan.net_ip lan.net_mask 10

pub record Ran : Type 0 where
  pub last : System int_double list_table
  pub reach : Reaches int_double list_table starting last

-- One TCP packet.
unfoldable pub captured : Ran
unfolding pkt_handler parse_frame link_layer network_layer transport_layer tcp_layer udp_layer
    load16 load32 ntohs flow_process_packet touch lookup key_eq table_at set_table new_flow
    infer_direction flow_update_stats
captured = record {
  last = _;
  reach = next here (captures syn_header syn_frame refl (omega arith) refl);
}

-- The export of that packet, with a UDP packet captured while it is under way.
unfoldable pub exporting_run : Ran
unfolding captured exchange_tables
exporting_run = record {
  last = _;
  reach =
      next (next (next captured.reach (wakes refl refl)) (exchanges refl refl refl))
        (captures query_header query_frame refl (omega arith) refl);
}

unfoldable pub exported : Ran
unfolding exporting_run send_one
exported = record {
  last = _;
  reach = next (next exporting_run.reach (sends refl refl)) (finishes refl);
}

-- main clears is_running while the export is under way.
unfoldable pub stopping_run : Ran
unfolding exporting_run
stopping_run = record { last = _; reach = next exporting_run.reach stops }

pub record Wound : Type 0 where
  pub last : System int_double list_table
  pub reach : Reaches int_double list_table stopping_run.last last

-- Then flush_worker sends its node and comes to the end of its round.
unfoldable pub wound : Wound
unfolding stopping_run send_one
wound = record { last = _; reach = next (next here (sends refl refl)) (finishes refl) }

-- Libraries that answer every call of main without an error.
abbrev pub ready : Host
ready producer_new = pos 1
ready pcap_create = pos 1
ready pcap_datalink = pos 1
ready a = pos 0
