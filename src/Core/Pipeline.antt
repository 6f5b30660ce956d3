-- ===== src/Core/Pipeline.antt =====
-- The sniffer and the aggregation together: from the packets of some windows of the sniffer to the
-- aggregate that their messages make.
use kaf_katch.Prelude.{
  All-mono, All-perm, length-perm, Permᴰ, ℕ, ◌^◌, ◌<◌, ◌≡◌, refl, sym, subst, ap, ◌∙◌, Bool, Option,
  none, some, List, length, All, arith,
}
use kaf_katch.Prelude.Int.{ℤ, pos}
use kaf_katch.Double.{Double}
use kaf_katch.Sniffer.Stats.{PktStats}
use kaf_katch.Sniffer.Flow.{FlowDirection, th_syn, th_fin, th_rst, th_ack}
use kaf_katch.Sniffer.Flow as SnifferFlow
use kaf_katch.Sniffer.Flow.Summary.{IsSized, payload}
use kaf_katch.Sniffer.Window.{Network}
use kaf_katch.Sniffer.Window.Sums.{
  sum_over, sum_of, any_direction, one, sum_of-one, sum_of-mark, mark, syns_count, acks_count,
  fins_count, rsts_count, packets_count, bytes_count, Counts,
}
use kaf_katch.Sniffer.Window.Series.{
  packets_of, packets_of-IsSized, flows_of, sum_over-perm, sum_over-flows_of, length-flows_of,
}
use kaf_katch.Core.Jackson.{Jackson}
use kaf_katch.Core.Parser.Message.{flow_value, Reads}
use kaf_katch.Core.Readable.{IsReadable, IsSeries, flows_of-IsReadable}
use kaf_katch.Core.Aggregate.{AggregatedFlow, Serdes, IsFaithful, contains, aggregate}
use kaf_katch.Core.Aggregate.Keys.{keys_of}
use kaf_katch.Core.Aggregate.Distinct.{Keys-count}
use kaf_katch.Core.Measures.{goes_in, goes_out, Measures, sum_of-payload_le, sum_of-one_le}
use kaf_katch.Core.Aggregate.Average.{average_packet_size-mean}
use kaf_katch.Core.Uniques.{text_key, packet_texts, contains-perm, flows_of-contains}
use mathlib.Core.List.Permᴰ
use kaf_katch.Core.Aggregate.Totals.{total, any, is_inbound, is_outbound, HasCounters}
use kaf_katch.Core.Aggregate.Window.{IsAggregate}
use kaf_katch.Core.Aggregate.Faithful.{aggregate-IsAggregate}
use kaf_katch.Core.Sent.{
  Sent, events, sent_flows, reports, parsed-events, reports-HasCounters, length-events,
  total-reports, total-flags, keys_of-reports,
}

module _ {T : Type 0} (F : Double) (J : Jackson F.Carrier) (local_time : ℤ → T)
    (serdes : Serdes T F.Carrier) where
  module _ (net : Network) (windows : List (List PktStats))
      (sent : List (Sent F J local_time serdes)) (w : IsSeries net windows)
      (order : Permᴰ (flows_of F net windows) (sent_flows F J local_time serdes sent)) where
    abbrev packets : List PktStats
    packets = packets_of windows

    sent-sum_over :
        (count : SnifferFlow.Flow F.Carrier → ℕ) (weight : PktStats → ℕ)
        → Counts F net count weight
        → All (λ history. sum_of net any_direction weight history < 2 ^ 31) windows
        → (wanted : FlowDirection → Bool)
        → sum_over wanted count (sent_flows F J local_time serdes sent)
          ≡ sum_of net wanted weight packets
    sent-sum_over count weight law n wanted =
        sym (sum_over-perm wanted count order)
        ∙ sum_over-flows_of F net count weight law wanted windows
            (All-mono (λ history h. h.sizes) windows w.each) n

    sent_packets :
        (wanted : FlowDirection → Bool)
        → sum_over wanted (λ f. f.packet_count) (sent_flows F J local_time serdes sent)
          ≡ sum_of net wanted one packets
    sent_packets =
        sent-sum_over (λ f. f.packet_count) one (packets_count F net)
          (All-mono (λ history h. omega (arith, h.packets, sum_of-one F net history)) windows
            w.each)

    sent_bytes :
        (wanted : FlowDirection → Bool)
        → sum_over wanted (λ f. f.byte_count) (sent_flows F J local_time serdes sent)
          ≡ sum_of net wanted payload packets
    sent_bytes =
        sent-sum_over (λ f. f.byte_count) payload (bytes_count F net)
          (All-mono (λ history h. h.volume) windows w.each)

    sent_flags :
        (flag : ℕ) (count : SnifferFlow.Flow F.Carrier → ℕ)
        → Counts F net count (mark flag)
        → sum_over any_direction count (sent_flows F J local_time serdes sent)
          ≡ sum_of net any_direction (mark flag) packets
    sent_flags flag count law =
        sent-sum_over count (mark flag) law
          (All-mono (λ history h. omega (arith, h.packets, sum_of-mark F net flag history)) windows
            w.each)
          any_direction

    few_events : length (events F J local_time serdes sent) < 2 ^ 31
    few_events = omega (
      arith,
      length-events F J local_time serdes sent,
      length-perm order,
      length-flows_of F net windows,
      w.packets,
    )

    same_keys :
        (key : List ℕ)
        → contains (keys_of (reports F J local_time serdes sent)) key
          ≡ contains (packet_texts packets) key
    same_keys key =
        ap (λ keys. contains keys key) (keys_of-reports F J local_time serdes sent)
        ∙ sym (contains-perm key (Permᴰ.map (λ f. text_key f.key) order))
        ∙ flows_of-contains F net key windows

    sized : All IsSized packets
    sized = packets_of-IsSized windows (All-mono (λ history h. h.sizes) windows w.each)

    some_packets : 0 < total any (λ f. f.packet_count) (reports F J local_time serdes sent)
    some_packets = omega (
      arith,
      (total-reports F J local_time serdes any sent).1,
      sent_packets any_direction,
      sum_of-one F net packets,
      w.some_packet,
    )

    IsAggregate-Measures :
        (o : Option (AggregatedFlow T))
        → IsAggregate o (reports F J local_time serdes sent)
        → (agg : AggregatedFlow T) × (o ≡ some agg) × Measures F net agg packets
    unfolding total
    IsAggregate-Measures none h =
        let none_left = ap (total any (λ f. f.packet_count)) h in
        absurd (omega (arith, some_packets, none_left))
    IsAggregate-Measures (some agg) h =
        let bytes_in =
          h.1.bytes_in
          ∙ ap pos ((total-reports F J local_time serdes is_inbound sent).0 ∙ sent_bytes goes_in) in
        let bytes_out =
          h.1.bytes_out
          ∙ ap pos
              ((total-reports F J local_time serdes is_outbound sent).0 ∙ sent_bytes goes_out) in
        let packets_in =
          h.1.packets_in
          ∙ ap pos
              ((total-reports F J local_time serdes is_inbound sent).1 ∙ sent_packets goes_in) in
        let packets_out =
          h.1.packets_out
          ∙ ap pos
              ((total-reports F J local_time serdes is_outbound sent).1 ∙ sent_packets goes_out) in
        (
          agg,
          refl,
          record {
            bytes_in = bytes_in;
            bytes_out = bytes_out;
            packets_in = packets_in;
            packets_out = packets_out;
            mean =
                average_packet_size-mean F agg _ _ _ _ bytes_in bytes_out packets_in packets_out
                  (omega (
                    arith,
                    w.packets,
                    sum_of-payload_le net goes_in packets sized,
                    sum_of-payload_le net goes_out packets sized,
                  ))
                  (omega (
                    arith,
                    w.packets,
                    sum_of-one_le net goes_in packets,
                    sum_of-one_le net goes_out packets,
                  ));
            syns =
                h.1.syns
                ∙ ap pos (
                    (total-flags F J local_time serdes sent).0
                    ∙ sent_flags th_syn _ (syns_count F net));
            acks =
                h.1.acks
                ∙ ap pos (
                    (total-flags F J local_time serdes sent).1
                    ∙ sent_flags th_ack _ (acks_count F net));
            fins =
                h.1.fins
                ∙ ap pos (
                    (total-flags F J local_time serdes sent).2
                    ∙ sent_flags th_fin _ (fins_count F net));
            rsts =
                h.1.rsts
                ∙ ap pos (
                    (total-flags F J local_time serdes sent).3
                    ∙ sent_flags th_rst _ (rsts_count F net));
            uniques =
                Keys-count agg (reports F J local_time serdes sent) h.2 (packet_texts packets)
                  same_keys;
          },
        )

  -- Both programs together: the aggregate of the messages of some windows of the sniffer, in
  -- whatever order they are received, measures the packets that were captured. Its inbound and
  -- outbound bytes and packets are the payload and the number of the packets whose key has that
  -- direction, getAveragePacketSize is the quotient of these, its TCP totals are the numbers of TCP
  -- packets with the flag, and its unique flows the distinct texts that addFlow makes of their keys.
  -- This is for at least one and fewer than 2 ^ 31 packets, and fewer than 2 ^ 31 payload bytes in
  -- each window, if readTree reads the messages as JSON and the topic of groupBy and the state store
  -- give back what they were given.
  pub aggregate-Measures :
      (net : Network) (windows : List (List PktStats)) (sent : List (Sent F J local_time serdes))
      → IsFaithful serdes
      → IsSeries net windows
      → All (λ f. Reads F J local_time (flow_value F f)) (flows_of F net windows)
      → Permᴰ (flows_of F net windows) (sent_flows F J local_time serdes sent)
      → (agg : AggregatedFlow T) × (aggregate J local_time serdes
            (events F J local_time serdes sent)
          ≡ some agg)
        × Measures F net agg (packets_of windows)
  aggregate-Measures net windows sent whole w j order =
      let readable : All (IsReadable F J local_time) (sent_flows F J local_time serdes sent) =
        All-perm (IsReadable F J local_time) order
          (flows_of-IsReadable F J local_time net windows w.each j) in
      let read = parsed-events F J local_time serdes sent readable in
      IsAggregate-Measures net windows sent w order
        (aggregate J local_time serdes (events F J local_time serdes sent))
        (subst (IsAggregate (aggregate J local_time serdes (events F J local_time serdes sent)))
          read
          (aggregate-IsAggregate J local_time serdes whole (events F J local_time serdes sent)
            (few_events net windows sent w order)
            (subst (All HasCounters) (sym read)
              (reports-HasCounters F J local_time serdes sent readable))))
