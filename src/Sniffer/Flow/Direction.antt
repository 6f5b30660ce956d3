-- ===== src/Sniffer/Flow/Direction.antt =====
-- flow_process_packet: the direction that a new flow gets from the local network.
use kaf_katch.Prelude.{
  ℕ, ◌%◌, ◌^◌, ◌≡◌, ◌≢◌, Bool, true, false, ◌==◌, low_mask, bit_and-low_mask, arith,
}
use kaf_katch.Sniffer.Stats.{FlowKey}
use kaf_katch.Sniffer.Flow.{FlowDirection, outbound, inbound, lateral, unknown, infer_direction}

-- The four directions by where the two ends of a flow are.
abbrev pub direction_of : (src_is_local dst_is_local : Bool) → FlowDirection
direction_of true false = outbound
direction_of false true = inbound
direction_of true true = lateral
direction_of false false = unknown

-- The flow of the packets that go back.
abbrev pub reverse_key : FlowKey → FlowKey
reverse_key k = record k {
  src_ip = k.dst_ip;
  dst_ip = k.src_ip;
  src_port = k.dst_port;
  dst_port = k.src_port;
}

abbrev pub opposite : FlowDirection → FlowDirection
opposite outbound = inbound
opposite inbound = outbound
opposite lateral = lateral
opposite unknown = unknown

-- With a mask of n ones from the first octet on (n a multiple of 8, as the address is stored low
-- octet first), an end is local exactly when its low n bits are the network's.
pub infer_direction-low_mask :
    (n net_ip : ℕ) (key : FlowKey)
    → low_mask n ≢ 0
    → infer_direction net_ip (low_mask n) key
      ≡ direction_of (key.src_ip % 2 ^ n == net_ip) (key.dst_ip % 2 ^ n == net_ip)
unfolding infer_direction
infer_direction-low_mask n net_ip key h =
    ground (arith, bit_and-low_mask n key.src_ip, bit_and-low_mask n key.dst_ip)

-- The packets that go back form a flow of the opposite direction, whatever the mask.
infer_direction-reverse :
    (net_ip net_mask : ℕ) (key : FlowKey)
    → infer_direction net_ip net_mask (reverse_key key)
      ≡ opposite (infer_direction net_ip net_mask key)
unfolding infer_direction
infer_direction-reverse net_ip net_mask key = ground arith
