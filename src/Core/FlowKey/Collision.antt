-- ===== src/Core/FlowKey/Collision.antt =====
-- kafkatch-core/src/main/java/br/ufes/edu/domain/AggregatedFlow.java: two flows with one key in
-- addFlow.
use kaf_katch.Prelude.{
  ℕ, zero, suc, ◌+◌, ◌*◌, ◌/◌, ◌%◌, ◌<◌, ◌≡◌, ◌≢◌, refl, ap, ◌∙◌, true, false, List, [], ◌∷◌, ◌++◌,
  arith,
}
use mathlib.Core.List.{append_assoc}
use kaf_katch.Prelude.Int.{pos, ◌+ℤ◌}
use kaf_katch.Text.{join, decimal, digits_loop, signed}
use kaf_katch.Core.Flow.{FlowProtocol, tcp, udp, protocol_name, make_key, text_eq_iff}
use kaf_katch.Long.{to_int}
use kaf_katch.Core.Flow as CoreFlow
use kaf_katch.Core.Aggregate.{
  AggregatedFlow, contains, new_aggregate, unique_key, add_volume, add_flags, add_flow,
}

digits_loop_fuel : (f g n : ℕ) → n < f → n < g → digits_loop f n ≡ digits_loop g n
unfolding digits_loop
digits_loop_fuel zero g n hf hg = absurd (omega arith)
digits_loop_fuel (suc f) zero n hf hg = absurd (omega arith)
digits_loop_fuel (suc f) (suc g) n hf hg = ground (arith, digits_loop_fuel f g (n / 10))

-- One digit more.
decimal_digit : (d n : ℕ) → 0 < d → n < 10 → decimal (10 * d + n) ≡ decimal d ++ (48 + n) ∷ []
unfolding decimal
decimal_digit d n hd hn =
    let high : (10 * d + n) / 10 ≡ d = omega arith in
    let low : (10 * d + n) % 10 ≡ n = omega arith in
    unfold digits_loop in ground (arith, high, low, digits_loop_fuel (10 * d + n) (suc d) d)

decimal_one : (n : ℕ) → n < 10 → decimal n ≡ (48 + n) ∷ []
unfolding decimal digits_loop
decimal_one n h = ground arith

module _ {T D : Type 0} where
  volume_keeps_keys :
      (dir : CoreFlow.FlowDirection) (f : CoreFlow.Flow T D) (agg : AggregatedFlow T)
      → ((add_flags f (add_volume dir f agg)).flow_keys ≡ agg.flow_keys)
        × ((add_flags f (add_volume dir f agg)).unique_flow_count ≡ agg.unique_flow_count)
  volume_keeps_keys CoreFlow.inbound f agg = (refl, refl)
  volume_keeps_keys CoreFlow.outbound f agg = (refl, refl)
  volume_keeps_keys CoreFlow.lateral f agg = (refl, refl)
  volume_keeps_keys CoreFlow.unknown f agg = (refl, refl)

  add_flow-fresh :
      (now : T) (f : CoreFlow.Flow T D) (agg : AggregatedFlow T)
      → contains agg.flow_keys (unique_key f) ≡ false
      → ((add_flow now f agg).flow_keys ≡ unique_key f ∷ agg.flow_keys)
        × ((add_flow now f agg).unique_flow_count ≡ to_int (agg.unique_flow_count +ℤ pos 1))
  unfolding add_flow
  add_flow-fresh now f agg e = ground (arith, volume_keeps_keys f.dir f agg)

  add_flow-known :
      (now : T) (f : CoreFlow.Flow T D) (agg : AggregatedFlow T)
      → contains agg.flow_keys (unique_key f) ≡ true
      → (add_flow now f agg).unique_flow_count ≡ agg.unique_flow_count
  unfolding add_flow
  add_flow-known now f agg e = ground (arith, volume_keeps_keys f.dir f agg)

module _ {T D : Type 0} (f : CoreFlow.Flow T D) (ip : List ℕ) (d n : ℕ) where
  -- A port of one digit, behind an address that ends in the digits of d.
  abbrev pub short_port : CoreFlow.Flow T D
  short_port = record f { src_ip = ip ++ decimal d; src_port = pos n }

  -- The port of all these digits, behind the address without them.
  abbrev pub long_port : CoreFlow.Flow T D
  long_port = record f { src_ip = ip; src_port = pos (10 * d + n) }

  keys_collide : 0 < d → n < 10 → unique_key short_port ≡ unique_key long_port
  unfolding unique_key join signed
  keys_collide hd hn = simp (decimal_digit d n hd hn, decimal_one n hn, append_assoc)

  -- addFlow counts distinct flows as one: of two flows that differ in the source port, and in that
  -- the leading digits of the one port end the address of the other, the second is no new flow.
  pub add_flow-collides :
      (start now later : T)
      → 0 < d
      → n < 10
      → ((add_flow later long_port
            (add_flow now short_port (new_aggregate start))).unique_flow_count
          ≡ pos 1)
        × (short_port.src_port ≢ long_port.src_port)
  unfolding new_aggregate to_int ◌+ℤ◌
  add_flow-collides start now later hd hn =
      let known =
        (text_eq_iff (unique_key short_port) (unique_key long_port)).1 (keys_collide hd hn) in
      let first = add_flow now short_port (new_aggregate start) in
      let (keys, count) = add_flow-fresh now short_port (new_aggregate start) refl in
      let again : contains first.flow_keys (unique_key long_port) ≡ true =
        ap (λ l. contains l (unique_key long_port)) keys ∙ rw known refl in
      (add_flow-known later long_port first again ∙ count, λ e. ground arith)
