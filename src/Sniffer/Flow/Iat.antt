-- ===== src/Sniffer/Flow/Iat.antt =====
-- flow_update_stats: the inter-arrival times add up to the time from the first packet to the last.
use kaf_katch.Prelude.{
  ◌+◌, ◌-◌, ◌*◌, ◌^◌, ◌<◌, ◌≡◌, ◌≢◌, refl, sym, ap, ap₂, subst, ◌∙◌, List, [], ◌∷◌, length, All,
  arith,
}
use kaf_katch.Words.{u32}
use kaf_katch.Prelude.Int.{ℤ, pos, pos_part, neg_part, ◌+ℤ◌, ◌-ℤ◌, ◌*ℤ◌, ◌≤ℤ◌, int_laws}
use kaf_katch.Double.{Double, Fits, IsExact}
use kaf_katch.Sniffer.Stats.{FlowKey, Timeval, PktStats}
use kaf_katch.Sniffer.Flow.{Flow, new_flow, flow_update_stats, delta_usec}
use kaf_katch.Sniffer.Flow.Summary.{first_time, replay}

-- A capture time as libpcap gives it, before the year 2106.
abbrev pub IsClock : Timeval → Type 0
IsClock t =
    (pos 0 ≤ℤ t.tv_sec)
    × (t.tv_sec ≤ℤ pos (2 ^ 32 - 1))
    × (pos 0 ≤ℤ t.tv_usec)
    × (t.tv_usec ≤ℤ pos 999999)

-- The microseconds since the epoch.
pub micros : Timeval → ℤ
micros t = t.tv_sec *ℤ pos 1000000 +ℤ t.tv_usec

-- The difference of two numbers of seconds, as microseconds.
million_parts :
    (a : ℤ)
    → pos_part (a *ℤ pos 1000000) + 1000000 * neg_part a
      ≡ neg_part (a *ℤ pos 1000000) + 1000000 * pos_part a
unfolding ◌*ℤ◌
million_parts a = ground arith

ruleset clock_laws = (int_laws, million_parts)

micros_parts :
    (t : Timeval)
    → pos_part (micros t) + 1000000 * neg_part t.tv_sec + neg_part t.tv_usec
      ≡ neg_part (micros t) + 1000000 * pos_part t.tv_sec + pos_part t.tv_usec
unfolding micros
micros_parts t = omega clock_laws

Fits-seconds : (now last : Timeval) → IsClock now → IsClock last → Fits (now.tv_sec -ℤ last.tv_sec)
Fits-seconds now last hn hl = omega clock_laws

Fits-million :
    (now last : Timeval)
    → IsClock now
    → IsClock last
    → Fits ((now.tv_sec -ℤ last.tv_sec) *ℤ pos 1000000)
Fits-million now last hn hl = omega clock_laws

Fits-micros : (now last : Timeval) → IsClock now → IsClock last → Fits (micros now -ℤ micros last)
Fits-micros now last hn hl = omega (clock_laws, micros_parts now, micros_parts last)

split_micros :
    (now last : Timeval)
    → (now.tv_sec -ℤ last.tv_sec) *ℤ pos 1000000 +ℤ (now.tv_usec -ℤ last.tv_usec)
      ≡ micros now -ℤ micros last
split_micros now last = omega (clock_laws, micros_parts now, micros_parts last)

sub_self : (a : ℤ) → pos 0 ≡ a -ℤ a
sub_self a = omega int_laws

chain_micros : (a b c : ℤ) → (b -ℤ c) +ℤ (a -ℤ b) ≡ a -ℤ c
chain_micros a b c = omega int_laws

module _ (F : Double) (exact : IsExact F) where
  delta_usec-eq :
      (now last : Timeval)
      → IsClock now
      → IsClock last
      → delta_usec F now last ≡ F.of_int (micros now -ℤ micros last)
  unfolding delta_usec
  delta_usec-eq now last hn hl =
      let sec = now.tv_sec -ℤ last.tv_sec in
      let usec = now.tv_usec -ℤ last.tv_usec in
      let scaled =
        exact.of_int-mul sec (pos 1000000) (Fits-seconds now last hn hl) (omega arith)
          (Fits-million now last hn hl) in
      let summed =
        exact.of_int-add (sec *ℤ pos 1000000) usec (Fits-million now last hn hl) (omega clock_laws)
          (subst Fits (sym (split_micros now last)) (Fits-micros now last hn hl)) in
      ap (λ d. F.add d (F.of_int usec)) scaled ∙ summed ∙ ap F.of_int (split_micros now last)

  update-iat_first :
      (flow : Flow F.Carrier) (p : PktStats)
      → flow.packet_count ≡ 0
      → (flow_update_stats F flow p).total_iat_usec ≡ F.of_int (pos 0)
  unfolding flow_update_stats
  update-iat_first flow p h = ground arith

  update-iat_later :
      (flow : Flow F.Carrier) (p : PktStats)
      → flow.packet_count ≢ 0
      → (flow_update_stats F flow p).total_iat_usec
        ≡ F.add flow.total_iat_usec (delta_usec F p.timestamp flow.last_seen)
  unfolding flow_update_stats
  update-iat_later flow p h = ground arith

  update-seen :
      (flow : Flow F.Carrier) (p : PktStats)
      → ((flow_update_stats F flow p).last_seen ≡ p.timestamp)
        × ((flow_update_stats F flow p).packet_count ≡ u32 (flow.packet_count + 1))
  unfolding flow_update_stats
  update-seen flow p = ground arith

  abbrev replayed : FlowKey → List PktStats → Flow F.Carrier
  replayed key = replay F (new_flow F key)

  replay-seen :
      (key : FlowKey) (p : PktStats) (ps : List PktStats)
      → length ps + 1 < 2 ^ 32
      → ((replayed key (p ∷ ps)).last_seen ≡ p.timestamp)
        × ((replayed key (p ∷ ps)).packet_count ≡ length ps + 1)
  unfolding replay new_flow
  replay-seen key p [] n = ground (arith, update-seen (new_flow F key) p)
  replay-seen key p (q ∷ qs) n =
      ground (arith, update-seen (replayed key (q ∷ qs)) p, replay-seen key q qs (omega arith))

  first_time-IsClock :
      (p : PktStats) (ps : List PktStats)
      → All (λ q. IsClock q.timestamp) (p ∷ ps)
      → IsClock (first_time p ps)
  unfolding first_time
  first_time-IsClock p [] h = h.0
  first_time-IsClock p (q ∷ qs) h = first_time-IsClock q qs h.1

  -- After fewer than 2 ^ 32 packets with capture times before 2106, the total inter-arrival time
  -- is exactly the time from the first packet to the last one, in microseconds.
  pub replay-total_iat :
      (key : FlowKey) (p : PktStats) (ps : List PktStats)
      → All (λ q. IsClock q.timestamp) (p ∷ ps)
      → length ps + 1 < 2 ^ 32
      → (replay F (new_flow F key) (p ∷ ps)).total_iat_usec
        ≡ F.of_int (micros p.timestamp -ℤ micros (first_time p ps))
  unfolding replay first_time new_flow
  replay-total_iat key p [] h n =
      update-iat_first (new_flow F key) p refl ∙ ap F.of_int (sub_self (micros p.timestamp))
  replay-total_iat key p (q ∷ qs) h n =
      let flow = replayed key (q ∷ qs) in
      let seen = replay-seen key q qs (omega arith) in
      let start = first_time q qs in
      let clock = first_time-IsClock q qs h.1 in
      let ih = replay-total_iat key q qs h.1 (omega arith) in
      let gap =
        ap (delta_usec F p.timestamp) seen.0 ∙ delta_usec-eq p.timestamp q.timestamp h.0 h.1.0 in
      let summed =
        exact.of_int-add (micros q.timestamp -ℤ micros start)
          (micros p.timestamp -ℤ micros q.timestamp) (Fits-micros q.timestamp start h.1.0 clock)
          (Fits-micros p.timestamp q.timestamp h.0 h.1.0)
          (subst Fits (sym (chain_micros (micros p.timestamp) (micros q.timestamp) (micros start)))
            (Fits-micros p.timestamp start h.0 clock)) in
      update-iat_later flow p (omega (arith, seen.1))
      ∙ ap₂ F.add ih gap
      ∙ summed
      ∙ ap F.of_int (chain_micros (micros p.timestamp) (micros q.timestamp) (micros start))
