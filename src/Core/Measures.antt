-- ===== src/Core/Measures.antt =====
-- What an aggregate of kafkatch-core (AggregatedFlow.java) should say of the packets that the sniffer
-- captured.
use kaf_katch.Prelude.{◌+◌, ◌*◌, ◌≤◌, ◌≡◌, Bool, List, [], ◌∷◌, length, All, arith}
use kaf_katch.Prelude.Int.{pos}
use kaf_katch.Double.{Double}
use kaf_katch.Sniffer.Stats.{PktStats}
use kaf_katch.Sniffer.Flow.{FlowDirection, th_syn, th_fin, th_rst, th_ack}
use kaf_katch.Sniffer.Flow.Summary.{IsSized, payload}
use kaf_katch.Sniffer.Window.{Network}
use kaf_katch.Sniffer.Window.Sums.{sum_of, any_direction, one, mark}
use kaf_katch.Core.Parser.Message.{direction_of}
use kaf_katch.Core.Aggregate.{AggregatedFlow}
use kaf_katch.Core.Aggregate.Totals.{is_inbound, is_outbound}
use kaf_katch.Core.Aggregate.Distinct.{distinct_count}
use kaf_katch.Core.Aggregate.Average.{average_packet_size, mean_size}
use kaf_katch.Core.Uniques.{packet_texts}

abbrev pub goes_in : FlowDirection → Bool
goes_in d = is_inbound (direction_of d)

abbrev pub goes_out : FlowDirection → Bool
goes_out d = is_outbound (direction_of d)

-- `uniques`: packets count as one flow if they have the same addresses, ports and protocol, or if
-- addFlow takes these for the same.
pub record Measures {T : Type 0} (F : Double) (net : Network) (agg : AggregatedFlow T)
    (history : List PktStats) : Type 0 where
  pub bytes_in : agg.bytes_inbound ≡ pos (sum_of net goes_in payload history)
  pub bytes_out : agg.bytes_outbound ≡ pos (sum_of net goes_out payload history)
  pub packets_in : agg.packets_inbound ≡ pos (sum_of net goes_in one history)
  pub packets_out : agg.packets_outbound ≡ pos (sum_of net goes_out one history)
  pub mean :
      average_packet_size F agg
      ≡ mean_size F
          (sum_of net goes_in payload history + sum_of net goes_out payload history)
          (sum_of net goes_in one history + sum_of net goes_out one history)
  pub syns : agg.tcp_syn_total ≡ pos (sum_of net any_direction (mark th_syn) history)
  pub acks : agg.tcp_ack_total ≡ pos (sum_of net any_direction (mark th_ack) history)
  pub fins : agg.tcp_fin_total ≡ pos (sum_of net any_direction (mark th_fin) history)
  pub rsts : agg.tcp_rst_total ≡ pos (sum_of net any_direction (mark th_rst) history)
  pub uniques : agg.unique_flow_count ≡ pos (distinct_count (packet_texts history))

module _ (net : Network) where
  pub sum_of-payload_le :
      (wanted : FlowDirection → Bool) (history : List PktStats)
      → All IsSized history
      → sum_of net wanted payload history ≤ 65535 * length history
  unfolding sum_of
  sum_of-payload_le wanted [] h = omega arith
  sum_of-payload_le wanted (s ∷ history) h = ground (arith, sum_of-payload_le wanted history h.1)

  pub sum_of-one_le :
      (wanted : FlowDirection → Bool) (history : List PktStats)
      → sum_of net wanted one history ≤ length history
  unfolding sum_of
  sum_of-one_le wanted [] = omega arith
  sum_of-one_le wanted (s ∷ history) = ground (arith, sum_of-one_le wanted history)
