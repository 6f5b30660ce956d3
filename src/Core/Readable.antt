-- ===== src/Core/Readable.antt =====
-- Which windows of the sniffer the service reads back flow by flow (kafkatch-core, FlowParser.java).
use kaf_katch.Prelude.{◌^◌, ◌<◌, List, [], ◌∷◌, length, All, All-append, All-append_split, arith}
use kaf_katch.Prelude.Int.{ℤ}
use kaf_katch.Double.{Double}
use kaf_katch.Sniffer.Stats.{PktStats}
use kaf_katch.Sniffer.Flow.{th_syn, th_fin, th_rst, th_ack}
use kaf_katch.Sniffer.Flow as SnifferFlow
use kaf_katch.Sniffer.Flow.Summary.{IsSized, payload}
use kaf_katch.Sniffer.Window.{Network, window}
use kaf_katch.Sniffer.Window.Types.{AreParsed, IsReportable, window-IsReportable}
use kaf_katch.Sniffer.Window.Sums.{
  sum_of, any_direction, one, window-count_lt, sum_of-one, sum_of-mark, packets_count, bytes_count,
  syns_count, fins_count, rsts_count, acks_count,
}
use kaf_katch.Sniffer.Window.Series.{packets_of, flows_of}
use kaf_katch.Core.Jackson.{Jackson}
use kaf_katch.Core.Parser.Message.{flow_value, FitsInts, Reads}

-- The packets of a window of the sniffer whose counters stay within a Java `int`.
pub record IsWindow (net : Network) (history : List PktStats) : Type 0 where
  pub parsed_packets : AreParsed history
  pub sizes : All IsSized history
  pub packets : length history < 2 ^ 31
  pub volume : sum_of net any_direction payload history < 2 ^ 31

-- Some windows with a packet, and fewer than 2 ^ 31.
pub record IsSeries (net : Network) (windows : List (List PktStats)) : Type 0 where
  pub each : All (IsWindow net) windows
  pub some_packet : 0 < length (packets_of windows)
  pub packets : length (packets_of windows) < 2 ^ 31

module _ {T : Type 0} (F : Double) (J : Jackson F.Carrier) (local_time : ℤ → T) where
  -- A flow whose message the service reads back.
  pub record IsReadable (f : SnifferFlow.Flow F.Carrier) : Type 0 where
    pub fields : IsReportable f
    pub ints : FitsInts F J local_time f
    pub reads : Reads F J local_time (flow_value F f)

  All-IsReadable :
      (fs : List (SnifferFlow.Flow F.Carrier))
      → All IsReportable fs
      → All (λ f. f.packet_count < 2 ^ 31) fs
      → All (λ f. f.byte_count < 2 ^ 31) fs
      → All (λ f. f.tcp_syn_count < 2 ^ 31) fs
      → All (λ f. f.tcp_fin_count < 2 ^ 31) fs
      → All (λ f. f.tcp_rst_count < 2 ^ 31) fs
      → All (λ f. f.tcp_ack_count < 2 ^ 31) fs
      → All (λ f. Reads F J local_time (flow_value F f)) fs
      → All IsReadable fs
  All-IsReadable [] h p b s f r a j = tt
  All-IsReadable (g ∷ gs) h p b s f r a j = (
    record {
      fields = h.0;
      ints = record { packets = p.0; bytes = b.0; syns = s.0; fins = f.0; rsts = r.0; acks = a.0 };
      reads = j.0;
    },
    All-IsReadable gs h.1 p.1 b.1 s.1 f.1 r.1 a.1 j.1,
  )

  window-IsReadable :
      (net : Network) (history : List PktStats)
      → IsWindow net history
      → All (λ f. Reads F J local_time (flow_value F f)) (window F net history)
      → All IsReadable (window F net history)
  window-IsReadable net history w j =
      All-IsReadable (window F net history) (window-IsReportable F net history w.parsed_packets)
        (window-count_lt F net (λ f. f.packet_count) one (packets_count F net) history (2 ^ 31)
          w.sizes (omega arith) (omega (arith, w.packets, sum_of-one F net history)))
        (window-count_lt F net (λ f. f.byte_count) payload (bytes_count F net) history (2 ^ 31)
          w.sizes (omega arith) w.volume)
        (window-count_lt F net (λ f. f.tcp_syn_count) _ (syns_count F net) history (2 ^ 31) w.sizes
          (omega arith) (omega (arith, w.packets, sum_of-mark F net th_syn history)))
        (window-count_lt F net (λ f. f.tcp_fin_count) _ (fins_count F net) history (2 ^ 31) w.sizes
          (omega arith) (omega (arith, w.packets, sum_of-mark F net th_fin history)))
        (window-count_lt F net (λ f. f.tcp_rst_count) _ (rsts_count F net) history (2 ^ 31) w.sizes
          (omega arith) (omega (arith, w.packets, sum_of-mark F net th_rst history)))
        (window-count_lt F net (λ f. f.tcp_ack_count) _ (acks_count F net) history (2 ^ 31) w.sizes
          (omega arith) (omega (arith, w.packets, sum_of-mark F net th_ack history)))
        j

  pub flows_of-IsReadable :
      (net : Network) (windows : List (List PktStats))
      → All (IsWindow net) windows
      → All (λ f. Reads F J local_time (flow_value F f)) (flows_of F net windows)
      → All IsReadable (flows_of F net windows)
  flows_of-IsReadable net [] w j = tt
  flows_of-IsReadable net (history ∷ older) w j =
      let (now, before) =
        All-append_split (λ f. Reads F J local_time (flow_value F f)) (window F net history)
          (flows_of F net older) j in
      All-append IsReadable (window F net history) (flows_of F net older)
        (window-IsReadable net history w.0 now) (flows_of-IsReadable net older w.1 before)
