-- ===== src/Sniffer/System/Progress.antt =====
-- flush_worker (sniffer/src/main.c) while the program runs: what was captured gets sent.
use kaf_katch.Prelude.{
  ℕ, ◌≡◌, refl, ◌∙◌, ap, ap₂, inl, inr, ◌⊎◌, Bool-cases, true, false, subst, List, [], ◌∷◌,
}
use kaf_katch.Double.{Double}
use kaf_katch.Sniffer.Stats.{PktStats}
use kaf_katch.Sniffer.UtHash.{UtHash, Members}
use kaf_katch.Sniffer.Window.{Network}
use kaf_katch.Sniffer.System.{
  Flusher, resting, awake, exporting, stopped, System, captures, stops, wakes, returns, skips,
  exchanges, sends, finishes, start, Reaches, here, next,
}
use kaf_katch.Sniffer.System.Invariant.{all_calls}
use kaf_katch.Sniffer.System.Reach.{Reaches-Inv}
use kaf_katch.Sniffer.System.Export.{send_one_succeeds, exchange_succeeds, calls-windows}
use kaf_katch.Sniffer.System.Works.{Works, idle, work, Works-trans, Works-Reaches, Works-meet}
use kaf_katch.Sniffer.System.Ends.{exchange_tables-active}

module _ (F : Double) (U : UtHash) where
  open U use {Table, members, is_null}

  module _ (net : Network) (quota : ℕ) where
    abbrev Started : System F U → Type 0
    Started = Reaches F U (start F U net.net_ip net.net_mask quota)

    -- A state with the given packets and windows in which flush_worker rests.
    record Rests (s : System F U) (current : List PktStats) (closed : List (List PktStats))
        : Type 0 where
      last : System F U
      run : Works F U s last
      rested : last.flusher ≡ resting
      running : last.ctx.is_running ≡ true
      packets : last.current ≡ current
      windows : last.closed ≡ closed

    after :
        {s t : System F U} {current : List PktStats} {closed : List (List PktStats)}
        → Works F U s t
        → Rests t current closed
        → Rests s current closed
    after p q = record {
      last = q.last;
      run = Works-trans F U p q.run;
      rested = q.rested;
      running = q.running;
      packets = q.packets;
      windows = q.windows;
    }

    rests :
        {s : System F U}
        → s.flusher ≡ resting
        → s.ctx.is_running ≡ true
        → Rests s s.current s.closed
    rests {s} e h = record {
      last = s;
      run = idle;
      rested = e;
      running = h;
      packets = refl;
      windows = refl;
    }

    exports-Rests :
        (rest : Members) {s : System F U} (t : Table)
        → Started s
        → s.flusher ≡ exporting t rest
        → s.ctx.is_running ≡ true
        → Rests s s.current s.closed
    exports-Rests [] t r e h = after (work (finishes e) tt idle) (rests refl h)
    exports-Rests ((k, p) ∷ rest) t r e h =
        let (w', sent) = send_one_succeeds F U net quota r t k p rest e in
        after (work (sends e sent) tt idle)
          (exports-Rests rest (U.del p t) (next r (sends e sent)) refl h)

    awake-Rests :
        {s : System F U}
        → Started s
        → s.flusher ≡ awake
        → s.ctx.is_running ≡ true
        → Rests s [] (s.current ∷ s.closed)
    awake-Rests {s} r e h =
        let v = Reaches-Inv F U net quota r in
        let (ctx', x) = exchange_succeeds F U net quota r s.ctx v.table v.active in
        let running = (exchange_tables-active F U s.ctx ctx' v.table x).1 ∙ h in
        elim (Bool-cases (is_null v.table)) [
          | inl silent ↦ after (work (skips e x silent) tt idle) (rests refl running)
          | inr loud ↦
              after (work (exchanges e x loud) tt idle)
                (exports-Rests (members v.table) v.table (next r (exchanges e x loud)) refl running)
        ]

    resting-Rests :
        {s : System F U}
        → Started s
        → s.flusher ≡ resting
        → s.ctx.is_running ≡ true
        → Rests s [] (s.current ∷ s.closed)
    resting-Rests {s} r e h =
        after (work (wakes e h) tt idle) (awake-Rests (next r (wakes e h)) refl h)

    -- Everything that was captured is sent.
    pub record Delivers (s : System F U) : Type 0 where
      pub last : System F U
      pub run : Works F U s last
      pub passes : (u : System F U) → Works F U s u → Works F U u last ⊎ Works F U last u
      pub rested : last.flusher ≡ resting
      pub packets : last.current ≡ []
      pub windows : last.closed ≡ s.current ∷ s.closed
      pub complete : last.world.calls ≡ all_calls F U net (s.current ∷ s.closed)

    Rests-Delivers : {s : System F U} → Started s → Rests s [] (s.current ∷ s.closed) → Delivers s
    Rests-Delivers r q = record {
      last = q.last;
      run = q.run;
      passes = λ u p. Works-meet F U p q.run;
      rested = q.rested;
      packets = q.packets;
      windows = q.windows;
      complete =
          calls-windows F U net quota (Works-Reaches F U r q.run) q.rested
          ∙ ap (all_calls F U net) q.windows;
    }

    stopped-halted : {s : System F U} → Started s → s.flusher ≡ stopped → s.ctx.is_running ≡ false
    stopped-halted here e = absurd (cc)
    stopped-halted (next r (captures h bytes running octets x)) e =
        let h' = stopped-halted r e in absurd (cc)
    stopped-halted (next r stops) e = refl
    stopped-halted (next r (wakes e' running)) e = absurd (cc)
    stopped-halted (next r (returns e' stopping)) e = stopping
    stopped-halted (next r (skips e' x q)) e = absurd (cc)
    stopped-halted (next r (exchanges e' x q)) e = absurd (cc)
    stopped-halted (next r (sends e' x)) e = absurd (cc)
    stopped-halted (next r (finishes e')) e = absurd (cc)

    exporting-Rests :
        {s : System F U} (t : Table) (rest : Members)
        → Started s
        → s.flusher ≡ exporting t rest
        → s.ctx.is_running ≡ true
        → Rests s [] (s.current ∷ s.closed)
    exporting-Rests {s} t rest r e h =
        let q = exports-Rests rest t r e h in
        after q.run (
          subst (Rests q.last []) (ap₂ (λ x xs. x ∷ xs) q.packets q.windows)
            (resting-Rests (Works-Reaches F U r q.run) q.rested q.running))

    Rests-at :
        (fl : Flusher F U) {s : System F U}
        → s.flusher ≡ fl
        → Started s
        → s.ctx.is_running ≡ true
        → Rests s [] (s.current ∷ s.closed)
    Rests-at resting e r h = resting-Rests r e h
    Rests-at awake e r h = awake-Rests r e h
    Rests-at (exporting t rest) e r h = exporting-Rests t rest r e h
    Rests-at stopped e r h = let halted = stopped-halted r e in absurd (cc)

    -- As long as the program runs, no packet is left behind: from every state that the two threads
    -- reach while `is_running` holds, wherever flush_worker stands, its own moves lead to a state in
    -- which it rests, all packets captured so far belong to closed windows, those since the last
    -- exchange to one window, and all these windows have been sent; and it cannot do otherwise: each
    -- state that its moves lead to stands before that one or behind it.
    pub flush_worker-Delivers :
        {s : System F U}
        → Reaches F U (start F U net.net_ip net.net_mask quota) s
        → s.ctx.is_running ≡ true
        → Delivers s
    flush_worker-Delivers {s} r h = Rests-Delivers r (Rests-at s.flusher refl r h)
