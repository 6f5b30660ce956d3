-- ===== src/Sniffer/Flow.antt =====
-- sniffer/src/flow.h and flow.c: a microflow, its direction and the update by one packet. The table
-- operations of flow.c are in `Sniffer.Context`.
pub mod Types
pub mod Summary
pub mod Replay
pub mod Iat
pub mod Direction
use kaf_katch.Prelude.{ℕ, ◌+◌, Bool, not, ◌&&◌, ◌==◌, if◌then◌else◌, bit_and}
use kaf_katch.Prelude.Int.{pos, ◌-ℤ◌, ltb_ℤ}
use kaf_katch.Words.{u32, int_to_u16, int_to_u32}
use kaf_katch.Double.{Double}
use kaf_katch.Sniffer.Stats.{FlowKey, Timeval, PktStats}

pub data FlowDirection : Type 0 where
  outbound inbound lateral unknown : FlowDirection

-- `flow_t` without `hh`, which belongs to the hash table.
pub record Flow (D : Type 0) : Type 0 where
  pub key : FlowKey
  pub direction : FlowDirection
  pub packet_count : ℕ
  pub byte_count : ℕ
  pub min_packet_size : ℕ
  pub max_packet_size : ℕ
  pub start_time : Timeval
  pub last_seen : Timeval
  pub total_iat_usec : D
  pub tcp_syn_count : ℕ
  pub tcp_fin_count : ℕ
  pub tcp_rst_count : ℕ
  pub tcp_ack_count : ℕ

-- <netinet/in.h> and <netinet/tcp.h>
abbrev pub ipproto_tcp : ℕ
ipproto_tcp = 6

abbrev pub ipproto_udp : ℕ
ipproto_udp = 17

abbrev pub th_fin : ℕ
th_fin = 0x01

abbrev pub th_syn : ℕ
th_syn = 0x02

abbrev pub th_rst : ℕ
th_rst = 0x04

abbrev pub th_push : ℕ
th_push = 0x08

abbrev pub th_ack : ℕ
th_ack = 0x10

abbrev pub th_urg : ℕ
th_urg = 0x20

-- `stats->tcp_flags & flag` as a condition.
abbrev pub has_flag : ℕ → ℕ → Bool
has_flag flags flag = not (bit_and flags flag == 0)

abbrev pub zero_time : Timeval
zero_time = record { tv_sec = pos 0; tv_usec = pos 0 }

-- The direction that `flow_process_packet` infers; `==` binds tighter than the mask's `&`.
unfoldable pub infer_direction : (net_ip net_mask : ℕ) → FlowKey → FlowDirection
infer_direction net_ip net_mask key =
    if net_mask == 0
    then unknown
    else let src_is_local = bit_and key.src_ip net_mask == net_ip in
      let dst_is_local = bit_and key.dst_ip net_mask == net_ip in
      if src_is_local && not dst_is_local
      then outbound
      else if not src_is_local && dst_is_local
      then inbound
      else if src_is_local && dst_is_local
      then lateral
      else unknown

module _ (F : Double) where
  -- What `flow_create` leaves in the node: calloc's zeros, then the key. `direction` 0 is outbound.
  unfoldable pub new_flow : FlowKey → Flow F.Carrier
  new_flow key = record {
    key = key;
    direction = outbound;
    packet_count = 0;
    byte_count = 0;
    min_packet_size = 0;
    max_packet_size = 0;
    start_time = zero_time;
    last_seen = zero_time;
    total_iat_usec = F.of_int (pos 0);
    tcp_syn_count = 0;
    tcp_fin_count = 0;
    tcp_rst_count = 0;
    tcp_ack_count = 0;
  }

  -- `delta_usec`
  unfoldable pub delta_usec : Timeval → Timeval → F.Carrier
  delta_usec now last =
      F.add (F.mul (F.of_int (now.tv_sec -ℤ last.tv_sec)) (F.of_int (pos 1000000)))
        (F.of_int (now.tv_usec -ℤ last.tv_usec))

  -- The branch for the first packet of a flow.
  unfoldable pub first_packet : Flow F.Carrier → PktStats → Flow F.Carrier
  first_packet flow stats = record flow {
    start_time = stats.timestamp;
    min_packet_size = int_to_u16 stats.payload_size;
    max_packet_size = int_to_u16 stats.payload_size;
    total_iat_usec = F.of_int (pos 0);
  }

  -- The branch for a later packet.
  unfoldable pub later_packet : Flow F.Carrier → PktStats → Flow F.Carrier
  later_packet flow stats = record flow {
    min_packet_size =
        if ltb_ℤ stats.payload_size (pos flow.min_packet_size)
        then int_to_u16 stats.payload_size
        else flow.min_packet_size;
    max_packet_size =
        if ltb_ℤ (pos flow.max_packet_size) stats.payload_size
        then int_to_u16 stats.payload_size
        else flow.max_packet_size;
    total_iat_usec = F.add flow.total_iat_usec (delta_usec stats.timestamp flow.last_seen);
  }

  -- The updates that follow either branch.
  unfoldable pub count_packet : Flow F.Carrier → PktStats → Flow F.Carrier
  count_packet flow stats = record flow {
    last_seen = stats.timestamp;
    packet_count = u32 (flow.packet_count + 1);
    byte_count = u32 (flow.byte_count + int_to_u32 stats.payload_size);
  }

  -- The TCP flags, one counter each.
  unfoldable pub count_flags : Flow F.Carrier → PktStats → Flow F.Carrier
  count_flags flow stats =
      if stats.key.protocol == ipproto_tcp
      then record flow {
        tcp_syn_count = bump th_syn flow.tcp_syn_count;
        tcp_fin_count = bump th_fin flow.tcp_fin_count;
        tcp_rst_count = bump th_rst flow.tcp_rst_count;
        tcp_ack_count = bump th_ack flow.tcp_ack_count;
      }
      else flow
    where
      bump : ℕ → ℕ → ℕ
      bump flag count = if has_flag stats.tcp_flags flag then u32 (count + 1) else count

  unfoldable pub flow_update_stats : Flow F.Carrier → PktStats → Flow F.Carrier
  unfolding first_packet later_packet count_packet count_flags
  flow_update_stats flow stats =
      let timed =
        if flow.packet_count == 0 then first_packet flow stats else later_packet flow stats in
      count_flags (count_packet timed stats) stats
