-- ===== src/Examples.antt =====
-- The theorems at concrete inputs, and tests of the definitions.
mod Services
mod Clock
mod Threads
mod Alerts
mod Steady
mod Toasts
use kaf_katch.Prelude.{
  ◌≤◌, ℕ, ◌%◌, ◌^◌, ◌<◌, ◌≡◌, ◌≢◌, ◌↔◌, ◌⊎◌, refl, true, ◌==◌, if◌then◌else◌, low_mask, Option,
  none, some, List, [], ◌∷◌, length, map, drop, arith,
}
use kaf_katch.Prelude.Int.{ℤ, pos, ◌-ℤ◌}
use kaf_katch.Text.{codes, join, inet_ntop, decimal}
use kaf_katch.Words.{ntohs}
use kaf_katch.Sniffer.Stats.{FlowKey, PktStats}
use kaf_katch.Sniffer.Flow.{Flow, new_flow, outbound, ipproto_tcp, ipproto_udp, infer_direction}
use kaf_katch.Sniffer.Flow.Summary.{Summary, replay, total_payload, first_time}
use kaf_katch.Sniffer.Flow.Replay.{replay-Summary}
use kaf_katch.Sniffer.Flow.Iat.{micros, replay-total_iat}
use kaf_katch.Sniffer.Flow.Direction.{infer_direction-low_mask, reverse_key, opposite}
use kaf_katch.Sniffer.Machine.{World, ok, exits, fault}
use kaf_katch.Sniffer.UtHash.{list_table, lookup, Members}
use kaf_katch.Sniffer.Window.{window, find_flow, capture}
use kaf_katch.Sniffer.Window.Flows.{
  flow_of, find_flow-window, window-HasDistinctKeys, HasDistinctKeys,
}
use kaf_katch.Sniffer.Window.Counts.{packets, bytes, window-counts}
use kaf_katch.Sniffer.Context.{
  Context, exit_failure, flow_process_packet, flow_table_clear, table_at,
}
use kaf_katch.Sniffer.Context.Table.{owns}
use kaf_katch.Sniffer.Context.Process.{
  Processed, network, flow_process_packet-Processed, flow_process_packet-out_of_memory,
}
use kaf_katch.Sniffer.Parser.{PcapPkthdr, go, stray, parse_frame, pkt_handler}
use kaf_katch.Sniffer.Parser.Bounds.{HasVlanTag, parse_frame-stray_iff}
use kaf_katch.Sniffer.Parser.Fields.{IsPacket, parse_frame-IsPacket}
use kaf_katch.Sniffer.Parser.Frame.{plain, tagged}
use kaf_katch.Sniffer.Parser.Packet.{stats_of, parse_frame-tcp, parse_frame-udp}
use kaf_katch.Sniffer.Kafka.{
  json_payload, flow_json, kafka_client_send_flows, send_one, proto_str, dir_to_str, mean_iat,
}
use kaf_katch.Sniffer.Kafka.Send.{
  without, window_calls, kafka_client_send_flows_lem, flow_table_clear_lem,
}
use kaf_katch.Sniffer.System.{System, Reaches, topic_name, flush_round}
use kaf_katch.Sniffer.System.Invariant.{all_calls}
use kaf_katch.Sniffer.System.Export.{
  calls-windows, pkt_handler-ne-fault, no_leak_when_idle, flush_round_lem,
}
use kaf_katch.Sniffer.Startup.{
  Action, main, capture_frames, handle_sigint, kafka_client_init, start_capture, setup_pcap,
  open_capture, set_all, kafka_client_cleanup,
}
use kaf_katch.Sniffer.Startup.Release.{held, use_held, no_handles, handle_sigint-misuse_iff}
use kaf_katch.Sniffer.Debug.{flags_str, flow_str, flow_ends}
use kaf_katch.Sniffer.System.Messages.{reports, calls-reports}
use kaf_katch.Sniffer.System.Progress.{Delivers, flush_worker-Delivers}
use kaf_katch.Sniffer.System.Ends.{
  worker_moves, worker_moves_bounded, moves_left, Joins, flush_worker-Joins,
}
use kaf_katch.Sniffer.Debug.Packet.{debug_print_stats, debug_print_stats-widths}
use kaf_katch.Samples.{
  ready, int_double, int_double-IsExact, mac, lan, upload, syn, query, syn_frame, query_frame, noon,
  syn_header, query_header, starting, captured, exporting_run, exported, stopping_run, wound,
}

abbrev syn_stats : PktStats
syn_stats = stats_of syn_header upload ipproto_tcp 45764 443 2 3

-- The key of the packet, and a second packet of the flow a millisecond later.
abbrev syn_key : FlowKey
syn_key = syn_stats.key

abbrev ack_stats : PktStats
ack_stats = record syn_stats {
  payload_size = pos 500;
  timestamp = record { tv_sec = pos 1000; tv_usec = pos 1250 };
  tcp_flags = 0x10;
}

calls-windows_example :
    exported.last.world.calls ≡ all_calls int_double list_table lan exported.last.closed
unfolding exported
calls-windows_example = calls-windows int_double list_table lan 10 exported.reach refl

pkt_handler-ne-fault_example :
    pkt_handler int_double list_table exporting_run.last.ctx syn_header syn_frame
      exporting_run.last.world
    ≢ fault
unfolding exporting_run
pkt_handler-ne-fault_example =
    pkt_handler-ne-fault int_double list_table lan 10 exporting_run.reach syn_header syn_frame refl
      (omega arith) (omega arith)

flush_round_lem_example :
    (ctx' : Context Members) × (w' : World ℤ) × (flush_round int_double list_table captured.last.ctx
        captured.last.world
      ≡ ok ctx' w')
    × (w'.calls ≡ all_calls int_double list_table lan ((syn_stats ∷ []) ∷ []))
    × ((q : ℕ) → w'.cell q ≡ none)
    × (table_at ctx' ctx'.active_idx ≡ some [])
unfolding captured ◌-ℤ◌
flush_round_lem_example = flush_round_lem int_double list_table lan 10 captured.reach refl

abbrev one_node : Option (Flow ℤ) → World ℤ
one_node f = record { cell = λ q. if q == 1 then f else none; brk = 2; quota = 0; calls = [] }

flow_process_packet-Processed_example :
    Processed int_double list_table starting.ctx [] starting.world
      (capture int_double (network int_double list_table starting.ctx) syn_stats [])
      (flow_process_packet int_double list_table starting.ctx syn_stats starting.world)
unfolding table_at
flow_process_packet-Processed_example =
    flow_process_packet-Processed int_double list_table starting.ctx syn_stats starting.world [] []
      refl tt (omega arith)

abbrev spent : World ℤ
spent = record starting.world { quota = 0 }

flow_process_packet-out_of_memory_example :
    ((lookup syn_key [] ≡ none)
      × (flow_process_packet int_double list_table starting.ctx syn_stats spent
          ≡ exits exit_failure))
    ⊎ Processed int_double list_table starting.ctx [] spent
        (capture int_double (network int_double list_table starting.ctx) syn_stats [])
        (flow_process_packet int_double list_table starting.ctx syn_stats spent)
unfolding table_at
flow_process_packet-out_of_memory_example =
    flow_process_packet-out_of_memory int_double list_table starting.ctx syn_stats spent [] [] refl
      tt refl

replay-Summary_example :
    Summary
      (replay int_double (new_flow int_double syn_key) (ack_stats ∷ syn_stats ∷ []))
      ack_stats
      (syn_stats ∷ [])
replay-Summary_example =
    replay-Summary int_double syn_key ack_stats (syn_stats ∷ []) (omega arith) (omega arith)

replay-total_iat_example :
    (replay int_double (new_flow int_double syn_key) (ack_stats ∷ syn_stats ∷ [])).total_iat_usec
    ≡ micros ack_stats.timestamp -ℤ micros noon
unfolding first_time
replay-total_iat_example =
    replay-total_iat int_double int_double-IsExact syn_key ack_stats (syn_stats ∷ []) (omega arith)
      (omega arith)

infer_direction-low_mask_example : infer_direction lan.net_ip (low_mask 24) syn_key ≡ outbound
infer_direction-low_mask_example = infer_direction-low_mask 24 lan.net_ip syn_key mask_set
  where
    mask_set : low_mask 24 ≢ 0
    mask_set = unfold low_mask in omega arith

parse_frame-tcp_example : parse_frame syn_header syn_frame ≡ go syn_stats
parse_frame-tcp_example =
    parse_frame-tcp syn_header (plain mac mac) upload syn 0 1 3 (1 ∷ 1 ∷ 1 ∷ 0 ∷ 65 ∷ [])
      (omega arith) (omega arith) refl (omega arith) refl

parse_frame-udp_example :
    parse_frame query_header query_frame ≡ go (stats_of query_header upload ipproto_udp 5353 53 0 4)
parse_frame-udp_example =
    parse_frame-udp query_header (tagged mac mac 5) upload query 0 4 (65 ∷ 66 ∷ 67 ∷ 68 ∷ [])
      (omega arith) refl (omega arith) refl

-- Thirteen bytes, where the Ethernet header has fourteen.
abbrev runt : List ℕ
runt = 0 ∷ 0 ∷ 0 ∷ 0 ∷ 0 ∷ 0 ∷ 0 ∷ 0 ∷ 0 ∷ 0 ∷ 0 ∷ 0 ∷ 8 ∷ []

abbrev runt_header : PcapPkthdr
runt_header = record { ts = noon; caplen = 13 }

parse_frame-stray_iff_example :
    (parse_frame runt_header runt ≡ stray)
    ↔ ((length runt < 14) ⊎ (HasVlanTag runt × (length runt < 18)))
parse_frame-stray_iff_example = parse_frame-stray_iff runt_header runt refl (omega arith)

-- The frame is accepted.
syn_accepted : parse_frame syn_header syn_frame ≡ go syn_stats
syn_accepted =
    parse_frame-tcp syn_header (plain mac mac) upload syn 0 1 3 (1 ∷ 1 ∷ 1 ∷ 0 ∷ 65 ∷ [])
      (omega arith) (omega arith) refl (omega arith) refl

parse_frame-IsPacket_example : IsPacket syn_header syn_stats
parse_frame-IsPacket_example =
    parse_frame-IsPacket syn_header syn_frame (omega arith) syn_stats syn_accepted

-- The node of one flow, and a table that holds it.
abbrev syn_flow : Flow ℤ
syn_flow = record (new_flow int_double syn_key) { packet_count = 1; byte_count = 3; key = syn_key }

abbrev one_member : Members
one_member = (syn_key, 1) ∷ []

kafka_client_send_flows_example :
    (t' : Members) × (kafka_client_send_flows int_double list_table true topic_name
        (some one_member)
        (one_node (some syn_flow))
      ≡ ok (some t') (record (one_node (some syn_flow)) {
        cell = without (one_node (some syn_flow)).cell one_member;
        calls = window_calls int_double topic_name (syn_flow ∷ []) [];
      }))
    × (t' ≡ [])
unfolding owns lookup
kafka_client_send_flows_example =
    kafka_client_send_flows_lem int_double list_table topic_name one_member
      (one_node (some syn_flow)) (syn_flow ∷ []) (refl, refl, omega arith, refl, refl, tt)

-- A frame of the README's flow, as the message that goes to Kafka.
message_test :
    flow_json int_double syn_flow
    ≡ codes
        "{\"src_ip\":\"10.42.1.228\",\"src_port\":45764,\"dst_ip\":\"216.239.32.223\",\"dst_port\":443,\"protocol\":\"TCP\",\"dir\":\"OUTBOUND\",\"packets\":1,\"bytes\":3,\"min_size\":0,\"max_size\":0,\"mean_iat_us\":0.0,\"tcp\":{\"syn\":0,\"ack\":0,\"fin\":0,\"rst\":0}}"
unfolding flow_json new_flow join inet_ntop decimal proto_str dir_to_str mean_iat ntohs
message_test = refl
