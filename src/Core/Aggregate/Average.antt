-- ===== src/Core/Aggregate/Average.antt =====
-- getAveragePacketSize of AggregatedFlow.java, which Jackson also writes into the JSON.
use kaf_katch.Prelude.{ℕ, ◌+◌, ◌^◌, ◌<◌, ◌≡◌, ◌==◌, if◌then◌else◌, arith}
use kaf_katch.Prelude.Int.{pos, ◌+ℤ◌, is_zero, +ℤ-pos}
use kaf_katch.Long.{to_long, to_long_exact}
use kaf_katch.Double.{Double}
use kaf_katch.Core.Aggregate.{AggregatedFlow}

module _ (F : Double) where
  unfoldable pub average_packet_size : {T : Type 0} → AggregatedFlow T → F.Carrier
  average_packet_size agg =
      let total_packets = to_long (agg.packets_inbound +ℤ agg.packets_outbound) in
      if is_zero total_packets
      then F.of_int (pos 0)
      else F.div (F.of_int (to_long (agg.bytes_inbound +ℤ agg.bytes_outbound)))
          (F.of_int total_packets)

  -- The mean of so many bytes, and 0 if there is none.
  unfoldable pub mean_size : (bytes packets : ℕ) → F.Carrier
  mean_size bytes packets =
      if packets == 0
      then F.of_int (pos 0)
      else F.div (F.of_int (pos bytes)) (F.of_int (pos packets))

  pub average_packet_size-mean :
      {T : Type 0} (agg : AggregatedFlow T) (bytes_in bytes_out packets_in packets_out : ℕ)
      → agg.bytes_inbound ≡ pos bytes_in
      → agg.bytes_outbound ≡ pos bytes_out
      → agg.packets_inbound ≡ pos packets_in
      → agg.packets_outbound ≡ pos packets_out
      → bytes_in + bytes_out < 2 ^ 63
      → packets_in + packets_out < 2 ^ 63
      → average_packet_size agg ≡ mean_size (bytes_in + bytes_out) (packets_in + packets_out)
  unfolding average_packet_size mean_size
  average_packet_size-mean agg bi bo pi po ebi ebo epi epo nb np = rw (
    ebi,
    ebo,
    epi,
    epo,
    +ℤ-pos bi bo,
    +ℤ-pos pi po,
    to_long_exact (pos (bi + bo)) (omega arith) (omega arith),
    to_long_exact (pos (pi + po)) (omega arith) (omega arith),
  )
