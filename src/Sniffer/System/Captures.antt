-- ===== src/Sniffer/System/Captures.antt =====
-- A frame keeps the invariant of the two threads.
use kaf_katch.Prelude.{ℕ, ◌≡◌, ◌∙◌, ap, inl, inr, Bool-cases, ◌==◌, some, List, ◌∷◌, arith}
use kaf_katch.Double.{Double}
use kaf_katch.Sniffer.Stats.{PktStats}
use kaf_katch.Sniffer.Flow.{Flow}
use kaf_katch.Sniffer.Machine.{World, Run, ok, poll, flush}
use kaf_katch.Sniffer.UtHash.{UtHash}
use kaf_katch.Sniffer.Window.{Network, capture, window}
use kaf_katch.Sniffer.Context.{Context, table_at, set_table, flow_process_packet}
use kaf_katch.Sniffer.Context.Table.{Holds, Holds-frame, owned-lt}
use kaf_katch.Sniffer.Context.Process.{
  network, Processed, flow_process_packet-Processed, flow_process_packet-out_of_memory,
}
use kaf_katch.Sniffer.Parser.{Step, go, leave, stray, deliver}
use kaf_katch.Sniffer.Kafka.Send.{sent}
use kaf_katch.Sniffer.System.{
  topic_name, Flusher, resting, awake, exporting, stopped, System, join_window,
}
use kaf_katch.Sniffer.System.Invariant.{Exports, Inv}

set_table-at :
    {T : Type 0} (ctx ctx' : Context T) (i : ℕ) (t : T)
    → set_table ctx i t ≡ some ctx'
    → (table_at ctx' i ≡ some t)
      × (ctx'.active_idx ≡ ctx.active_idx)
      × (ctx'.net_ip ≡ ctx.net_ip)
      × (ctx'.net_mask ≡ ctx.net_mask)
      × (ctx'.is_running ≡ ctx.is_running)
unfolding set_table table_at
set_table-at ctx ctx' i t e = elim (Bool-cases (i == 0)) [
  | inl first ↦ ground arith
  | inr other ↦ ground arith
]

module _ (F : Double) (U : UtHash) (net : Network) where
  open U use {Table, members, null, is_null}

  -- What the flusher has is out of reach of the capture.
  Exports-Processed :
      (fl : Flusher F U) (ctx : Context Table) (table : Table) (w : World F.Carrier)
      (closed : List (List PktStats)) (fs : List (Flow F.Carrier))
      (r : Run F.Carrier (Context Table))
      → (P : Processed F U ctx table w fs r) → Exports F U net fl table w closed
      → Exports F U net fl P.table P.world closed
  Exports-Processed resting ctx table w closed fs r P e = P.silent ∙ e
  Exports-Processed awake ctx table w closed fs r P e = P.silent ∙ e
  Exports-Processed stopped ctx table w closed fs r P e = P.silent ∙ e
  Exports-Processed (exporting t rest) ctx table w closed fs r P e = record {
    todo = e.todo;
    left = e.left;
    held =
        Holds-frame w.cell P.world.cell w.brk P.world.brk rest e.todo P.grows
          (λ q lt o. (P.frame q lt (e.apart q o)).0) e.held;
    apart = λ q o. (P.frame q (owned-lt w.cell w.brk rest e.todo e.held q o) (e.apart q o)).1;
    pending = ap (λ c. flush 500 ∷ poll 0 ∷ sent F topic_name e.todo c) P.silent ∙ e.pending;
  }

  -- A packet that is processed at all is recorded.
  ok-Processed :
      (ctx ctx' : Context Table) (s : PktStats) (w w' : World F.Carrier) (t : Table)
      (fs : List (Flow F.Carrier))
      → table_at ctx ctx.active_idx ≡ some t
      → Holds w.cell w.brk (members t) fs
      → flow_process_packet F U ctx s w ≡ ok ctx' w'
      → Processed F U ctx t w (capture F (network F U ctx) s fs) (flow_process_packet F U ctx s w)
  ok-Processed ctx ctx' s w w' t fs a h e = elim (Bool-cases (w.quota == 0)) [
    | inl spent ↦ elim (flow_process_packet-out_of_memory F U ctx s w t fs a h (ground arith)) [
      | inl (new, x) ↦ cc
      | inr P ↦ P
    ]
    | inr room ↦ flow_process_packet-Processed F U ctx s w t fs a h (ground arith)
  ]

  process-Inv :
      (s : System F U) (stats : PktStats)
      → (v : Inv F U net s)
      → Processed F U s.ctx v.table s.world
          (capture F (network F U s.ctx) stats (window F net s.current))
          (flow_process_packet F U s.ctx stats s.world)
      → (ctx' : Context Table) (w' : World F.Carrier)
      → flow_process_packet F U s.ctx stats s.world ≡ ok ctx' w'
      → Inv F U net (record s { ctx = ctx'; world = w'; current = stats ∷ s.current })
  unfolding window
  process-Inv s stats v P ctx' w' e =
      let same_ctx : P.context ≡ ctx' = ground (arith, P.result) in
      let same_world : P.world ≡ w' = ground (arith, P.result) in
      let at = set_table-at s.ctx P.context s.ctx.active_idx P.table P.stored in
      rw (← same_ctx, ← same_world)
        (record {
          table = P.table;
          active = ap (table_at P.context) at.1 ∙ at.0;
          local = ground (arith, at, v.local);
          held = rw (← v.local) P.holds;
          exports = Exports-Processed s.flusher s.ctx v.table s.world s.closed _ _ P v.exports;
          no_leak = λ q o o'. let out = P.outside q o in out.1 ∙ v.no_leak q out.0 o';
        })

  pub captures-Inv :
      (s : System F U) (parsed : Step PktStats)
      → Inv F U net s
      → (ctx' : Context Table) (w' : World F.Carrier)
      → deliver F U s.ctx parsed s.world ≡ ok ctx' w'
      → Inv F U net (record s { ctx = ctx'; world = w'; current = join_window parsed s.current })
  unfolding deliver
  captures-Inv s (go stats) v ctx' w' e =
      process-Inv s stats v (ok-Processed s.ctx ctx' stats s.world w' v.table _ v.active v.held e)
        ctx' w' e
  captures-Inv s leave v ctx' w' e =
      let same_ctx : s.ctx ≡ ctx' = ground arith in
      let same_world : s.world ≡ w' = ground arith in rw (← same_ctx, ← same_world) v
  captures-Inv s stray v ctx' w' e = cc
