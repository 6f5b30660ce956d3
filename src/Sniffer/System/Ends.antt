-- ===== src/Sniffer/System/Ends.antt =====
-- The end of flush_worker, for which pthread_join in main (sniffer/src/main.c) waits.
use kaf_katch.Prelude.{
  ℕ, suc, ◌+◌, ◌≤◌, ◌≡◌, refl, ◌∙◌, subst, inl, inr, Bool-cases, false, Option, none, some, [], ◌∷◌,
  length, arith,
}
use kaf_katch.Double.{Double}
use kaf_katch.Sniffer.UtHash.{UtHash, Members}
use kaf_katch.Sniffer.Window.{Network}
use kaf_katch.Sniffer.Context.{Context, table_at, set_table}
use kaf_katch.Sniffer.System.{
  exchange_tables, Flusher, resting, awake, exporting, stopped, System, Moves, captures, stops,
  wakes, returns, skips, exchanges, sends, finishes, start, Reaches, here, next,
}
use kaf_katch.Sniffer.System.Invariant.{all_calls, Exports}
use kaf_katch.Sniffer.System.Reach.{Reaches-Inv}
use kaf_katch.Sniffer.System.Works.{IsWork, Works, idle, work, Works-meet, stopped-Works}
use kaf_katch.Sniffer.System.Export.{send_one_succeeds, exchange_succeeds}

module _ (F : Double) (U : UtHash) where
  open U use {Table, members, is_null}

  -- The moves of flush_worker in a run; those of the capture thread and of main do not count.
  abbrev pub worker_moves : {s t : System F U} → Reaches F U s t → ℕ
  worker_moves here = 0
  worker_moves (next r (captures h bytes running octets e)) = worker_moves r
  worker_moves (next r stops) = worker_moves r
  worker_moves (next r (wakes e running)) = suc (worker_moves r)
  worker_moves (next r (returns e stopping)) = suc (worker_moves r)
  worker_moves (next r (skips e x q)) = suc (worker_moves r)
  worker_moves (next r (exchanges e x q)) = suc (worker_moves r)
  worker_moves (next r (sends e x)) = suc (worker_moves r)
  worker_moves (next r (finishes e)) = suc (worker_moves r)

  -- The moves that flush_worker has left when it is told to stop, given the active table.
  abbrev pub moves_left : Flusher F U → Option Table → ℕ
  moves_left stopped active = 0
  moves_left resting active = 1
  moves_left (exporting t rest) active = length rest + 2
  moves_left awake none = 3
  moves_left awake (some t) = length (members t) + 3

  pub exchange_tables-active :
      (ctx ctx' : Context Table) (t : Table)
      → exchange_tables U ctx ≡ some (t, ctx')
      → (table_at ctx ctx.active_idx ≡ some t) × (ctx'.is_running ≡ ctx.is_running)
  unfolding exchange_tables table_at set_table
  exchange_tables-active ctx ctx' t e = ground arith

  record Winds (bound n : ℕ) (s : System F U) : Type 0 where
    halted : s.ctx.is_running ≡ false
    budget : n + moves_left s.flusher (table_at s.ctx s.ctx.active_idx) ≤ bound

  Moves-Winds :
      (bound : ℕ) {s t u : System F U} (r : Reaches F U s t) (m : Moves F U t u)
      → Winds bound (worker_moves r) t
      → Winds bound (worker_moves (next r m)) u
  unfolding table_at
  Moves-Winds bound r (captures h bytes running octets e) v = let h' = v.halted in cc
  Moves-Winds bound r stops v = record { halted = refl; budget = v.budget }
  Moves-Winds bound r (wakes e running) v = let h' = v.halted in cc
  Moves-Winds bound r (returns e stopping) v = record { halted = v.halted; budget = ground arith }
  Moves-Winds bound {t = s} r (skips {t} {ctx'} e x q) v =
      let at = exchange_tables-active s.ctx ctx' t x in
      record { halted = at.1 ∙ v.halted; budget = ground (arith, at) }
  Moves-Winds bound {t = s} r (exchanges {t} {ctx'} e x q) v =
      let at = exchange_tables-active s.ctx ctx' t x in
      record { halted = at.1 ∙ v.halted; budget = ground (arith, at) }
  Moves-Winds bound r (sends e x) v = record { halted = v.halted; budget = ground arith }
  Moves-Winds bound r (finishes e) v = record { halted = v.halted; budget = ground arith }

  Reaches-Winds :
      {s t : System F U} (r : Reaches F U s t)
      → s.ctx.is_running ≡ false
      → Winds (moves_left s.flusher (table_at s.ctx s.ctx.active_idx)) (worker_moves r) t
  Reaches-Winds here h = record { halted = h; budget = omega arith }
  Reaches-Winds (next r m) h = Moves-Winds _ r m (Reaches-Winds r h)

  -- Once `is_running` is cleared, flush_worker makes only so many moves, whatever the other thread
  -- does in between: one if it rests, one for each node that is left and two more if it exports,
  -- and three more than the active table has nodes if it has just woken up.
  pub worker_moves_bounded :
      {s t : System F U} (r : Reaches F U s t)
      → s.ctx.is_running ≡ false
      → worker_moves r ≤ moves_left s.flusher (table_at s.ctx s.ctx.active_idx)
  worker_moves_bounded r h = let b = (Reaches-Winds r h).budget in omega arith

module _ (F : Double) (U : UtHash) (net : Network) (quota : ℕ) where
  open U use {Table, members, is_null}

  abbrev Started : System F U → Type 0
  Started = Reaches F U (start F U net.net_ip net.net_mask quota)

  -- A state in which the flusher has returned after all its exports.
  pub record Joins (s : System F U) : Type 0 where
    pub last : System F U
    pub run : Works F U s last
    pub passes : (u : System F U) → Works F U s u → Works F U u last
    pub returned : last.flusher ≡ stopped
    pub complete : last.world.calls ≡ all_calls F U net last.closed

  -- Moves of flush_worker lead to it.
  ends :
      {s : System F U} (last : System F U)
      → Works F U s last
      → last.flusher ≡ stopped
      → last.world.calls ≡ all_calls F U net last.closed
      → Joins s
  ends last run returned complete = record {
    last = last;
    run = run;
    passes = λ u p. elim (Works-meet F U p run) [
      | inl before ↦ before
      | inr behind ↦ stopped-Works F U returned behind
    ];
    returned = returned;
    complete = complete;
  }

  after : {s t : System F U} (m : Moves F U s t) → IsWork F U m → Joins t → Joins s
  after m h j = ends j.last (work m h j.run) j.returned j.complete

  rests-Joins :
      {s : System F U} → Started s → s.flusher ≡ resting → s.ctx.is_running ≡ false → Joins s
  rests-Joins {s} r e h =
      let v = Reaches-Inv F U net quota r in
      ends (record s { flusher = stopped }) (work (returns e h) tt idle) refl
        (subst (λ fl. Exports F U net fl v.table s.world s.closed) e v.exports)

  exports-Joins :
      (rest : Members) {s : System F U} (t : Table)
      → Started s
      → s.flusher ≡ exporting t rest
      → s.ctx.is_running ≡ false
      → Joins s
  exports-Joins [] t r e h = after (finishes e) tt (rests-Joins (next r (finishes e)) refl h)
  exports-Joins ((k, p) ∷ rest) t r e h =
      let (w', sent) = send_one_succeeds F U net quota r t k p rest e in
      after (sends e sent) tt (exports-Joins rest (U.del p t) (next r (sends e sent)) refl h)

  awake-Joins :
      {s : System F U} → Started s → s.flusher ≡ awake → s.ctx.is_running ≡ false → Joins s
  awake-Joins {s} r e h =
      let v = Reaches-Inv F U net quota r in
      let (ctx', x) = exchange_succeeds F U net quota r s.ctx v.table v.active in
      let halted = (exchange_tables-active F U s.ctx ctx' v.table x).1 ∙ h in
      elim (Bool-cases (is_null v.table)) [
        | inl silent ↦
            after (skips e x silent) tt (rests-Joins (next r (skips e x silent)) refl halted)
        | inr loud ↦
            after (exchanges e x loud) tt
              (exports-Joins (members v.table) v.table (next r (exchanges e x loud)) refl halted)
      ]

  Joins-at :
      (fl : Flusher F U) {s : System F U}
      → s.flusher ≡ fl
      → Started s
      → s.ctx.is_running ≡ false
      → Joins s
  Joins-at resting e r h = rests-Joins r e h
  Joins-at awake e r h = awake-Joins r e h
  Joins-at (exporting t rest) e r h = exports-Joins rest t r e h
  Joins-at stopped {s} e r h =
      let v = Reaches-Inv F U net quota r in
      ends s idle e (subst (λ fl. Exports F U net fl v.table s.world s.closed) e v.exports)

  -- pthread_join returns: from every state that the two threads reach and in which `is_running` is
  -- cleared, wherever flush_worker stands, its own moves lead to a state in which it has returned,
  -- and so they do from each state that they come to before; then every window that was ever
  -- exchanged has been sent, no matter how far the export had come.
  pub flush_worker-Joins :
      {s : System F U}
      → Reaches F U (start F U net.net_ip net.net_mask quota) s
      → s.ctx.is_running ≡ false
      → Joins s
  flush_worker-Joins {s} r h = Joins-at s.flusher refl r h
