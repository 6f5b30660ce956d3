-- ===== src/Core/Aggregate/Totals.antt =====
-- The totals of an AggregatedFlow (AggregatedFlow.java) and the sums over its flows.
use kaf_katch.Prelude.{
  ℕ, ◌+◌, ◌*◌, ◌^◌, ◌≤◌, ◌<◌, ◌≡◌, Bool, true, false, if◌then◌else◌, List, [], ◌∷◌, length, All,
  arith,
}
use kaf_katch.Prelude.Int.{ℤ, pos, pos_part, ◌+ℤ◌}
use kaf_katch.Long.{to_long, IsCounter, to_long-counter}
use kaf_katch.Core.Flow.{Flow, FlowDirection, inbound, outbound, lateral, unknown}
use kaf_katch.Core.Aggregate.{AggregatedFlow, new_aggregate, add_flow}

abbrev pub is_inbound : FlowDirection → Bool
is_inbound inbound = true
is_inbound outbound = false
is_inbound lateral = false
is_inbound unknown = false

abbrev pub is_outbound : FlowDirection → Bool
is_outbound outbound = true
is_outbound inbound = false
is_outbound lateral = false
is_outbound unknown = false

abbrev pub any : FlowDirection → Bool
any d = true

module _ {T D : Type 0} where
  -- The sum of a counter over the flows of some directions.
  unfoldable pub total : (FlowDirection → Bool) → (Flow T D → ℤ) → List (Flow T D) → ℕ
  total wanted count [] = 0
  total wanted count (f ∷ fs) =
      if wanted f.dir then total wanted count fs + pos_part (count f) else total wanted count fs

  -- The counters of a flow as the parser makes them.
  pub record HasCounters (f : Flow T D) : Type 0 where
    pub packets : IsCounter f.packet_count
    pub bytes : IsCounter f.byte_count
    pub syns : IsCounter f.tcp_syn_count
    pub acks : IsCounter f.tcp_ack_count
    pub fins : IsCounter f.tcp_fin_count
    pub rsts : IsCounter f.tcp_rst_count

  pub record Totals (agg : AggregatedFlow T) (fs : List (Flow T D)) : Type 0 where
    pub bytes_in : agg.bytes_inbound ≡ pos (total is_inbound (λ f. f.byte_count) fs)
    pub bytes_out : agg.bytes_outbound ≡ pos (total is_outbound (λ f. f.byte_count) fs)
    pub packets_in : agg.packets_inbound ≡ pos (total is_inbound (λ f. f.packet_count) fs)
    pub packets_out : agg.packets_outbound ≡ pos (total is_outbound (λ f. f.packet_count) fs)
    pub syns : agg.tcp_syn_total ≡ pos (total any (λ f. f.tcp_syn_count) fs)
    pub acks : agg.tcp_ack_total ≡ pos (total any (λ f. f.tcp_ack_count) fs)
    pub fins : agg.tcp_fin_total ≡ pos (total any (λ f. f.tcp_fin_count) fs)
    pub rsts : agg.tcp_rst_total ≡ pos (total any (λ f. f.tcp_rst_count) fs)

  total-le :
      (wanted : FlowDirection → Bool) (count : Flow T D → ℤ) (fs : List (Flow T D))
      → All (λ f. IsCounter (count f)) fs
      → total wanted count fs ≤ length fs * 2 ^ 31
  unfolding total
  total-le wanted count [] h = omega arith
  total-le wanted count (f ∷ fs) h = ground (arith, total-le wanted count fs h.1)

  -- One sum more.
  sum_step :
      (wanted : FlowDirection → Bool) (count : Flow T D → ℤ) (f : Flow T D) (fs : List (Flow T D))
      → length fs + 1 < 2 ^ 32
      → All (λ g. IsCounter (count g)) (f ∷ fs)
      → to_long (pos (total wanted count fs) +ℤ count f)
        ≡ pos (total wanted count fs + pos_part (count f))
  sum_step wanted count f fs n h =
      to_long-counter (total wanted count fs) (count f) h.0
        (omega (arith, total-le wanted count fs h.1))

  counters :
      {P : Flow T D → Type 0}
      → ((f : Flow T D) → HasCounters f → P f)
      → (fs : List (Flow T D)) → All HasCounters fs
      → All P fs
  counters k [] h = tt
  counters k (f ∷ fs) h = (k f h.0, counters k fs h.1)

  pub add_flow-Totals :
      (now : T) (agg : AggregatedFlow T) (f : Flow T D) (fs : List (Flow T D))
      → length fs + 1 < 2 ^ 32
      → All HasCounters (f ∷ fs)
      → Totals agg fs
      → Totals (add_flow now f agg) (f ∷ fs)
  unfolding add_flow total
  add_flow-Totals now agg f fs n h v =
      let bytes = counters (λ g c. c.bytes) (f ∷ fs) h in
      let packets = counters (λ g c. c.packets) (f ∷ fs) h in
      ground (
        arith,
        sum_step is_inbound (λ g. g.byte_count) f fs n bytes,
        sum_step is_outbound (λ g. g.byte_count) f fs n bytes,
        sum_step is_inbound (λ g. g.packet_count) f fs n packets,
        sum_step is_outbound (λ g. g.packet_count) f fs n packets,
        sum_step any (λ g. g.tcp_syn_count) f fs n (counters (λ g c. c.syns) (f ∷ fs) h),
        sum_step any (λ g. g.tcp_ack_count) f fs n (counters (λ g c. c.acks) (f ∷ fs) h),
        sum_step any (λ g. g.tcp_fin_count) f fs n (counters (λ g c. c.fins) (f ∷ fs) h),
        sum_step any (λ g. g.tcp_rst_count) f fs n (counters (λ g c. c.rsts) (f ∷ fs) h),
      )

  pub new_aggregate-Totals : (start : T) → Totals (new_aggregate start) []
  unfolding new_aggregate total
  new_aggregate-Totals start = ground arith
