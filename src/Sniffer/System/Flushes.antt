-- ===== src/Sniffer/System/Flushes.antt =====
-- The moves of flush_worker keep the invariant of the two threads.
use kaf_katch.Prelude.{
  ℕ, ◌≡◌, ◌≢◌, refl, sym, ◌∙◌, ap, subst, inl, inr, Bool-cases, true, false, ◌==◌, Option, none,
  some, List, [], ◌∷◌, arith,
}
use kaf_katch.Double.{Double}
use kaf_katch.Sniffer.Stats.{FlowKey}
use kaf_katch.Sniffer.Flow.{Flow}
use kaf_katch.Sniffer.Machine.{World, ok, Call, produce, poll, flush, update}
use kaf_katch.Sniffer.UtHash.{UtHash, Members}
use kaf_katch.Sniffer.Window.{Network, window}
use kaf_katch.Sniffer.Context.{Context, table_at, set_table}
use kaf_katch.Sniffer.Context.Table.{owns, Holds, Holds-update_other, Holds-no_members}
use kaf_katch.Sniffer.Context.Process.{network}
use kaf_katch.Sniffer.Kafka.{json_payload, send_one}
use kaf_katch.Sniffer.Kafka.Send.{sent, window_calls, send_one-head, remove_head, Holds-nil}
use kaf_katch.Sniffer.System.{topic_name, exchange_tables, resting, awake, exporting, System}
use kaf_katch.Sniffer.System.Invariant.{all_calls, Exporting, Exports, nodes_left, Inv}

module _ (F : Double) (U : UtHash) (net : Network) where
  open U use {Table, members, null, is_null}

  -- The exchange leaves an empty active table, and hands out the one before.
  pub exchange_lem :
      (ctx ctx' : Context Table) (t table : Table)
      → table_at ctx ctx.active_idx ≡ some table
      → exchange_tables U ctx ≡ some (t, ctx')
      → (t ≡ table)
        × (table_at ctx' ctx'.active_idx ≡ some null)
        × (network F U ctx' ≡ network F U ctx)
        × (ctx'.is_running ≡ ctx.is_running)
  unfolding exchange_tables table_at set_table
  exchange_lem ctx ctx' t table a e = elim (Bool-cases (ctx.active_idx == 0)) [
    | inl first ↦ ground arith
    | inr other ↦ ground arith
  ]

  pub finishes-Inv :
      (s : System F U) (t : Table)
      → Inv F U net s
      → s.flusher ≡ exporting t []
      → Inv F U net (record s {
        world = record s.world { calls = flush 500 ∷ poll 0 ∷ s.world.calls };
        flusher = resting;
      })
  unfolding sent owns
  finishes-Inv s t v e =
      let x : Exporting F U net t [] v.table s.world s.closed =
        subst (λ fl. Exports F U net fl v.table s.world s.closed) e v.exports in
      let nothing = Holds-no_members s.world.cell s.world.brk x.todo x.held in
      record {
        table = v.table;
        active = v.active;
        local = v.local;
        held = v.held;
        exports =
            ap (λ fs. flush 500 ∷ poll 0 ∷ sent F topic_name fs s.world.calls) (sym nothing)
            ∙ x.pending;
        no_leak = λ q o o'. v.no_leak q o (ap (λ fl. owns q (nodes_left F U net fl)) e);
      }

  exported_calls :
      (fs : List (Flow F.Carrier)) (calls : List Call)
      → fs ≢ []
      → flush 500 ∷ poll 0 ∷ sent F topic_name fs calls ≡ window_calls F topic_name fs calls
  unfolding window_calls
  exported_calls [] calls h = absurd (h refl)
  exported_calls (f ∷ fs) calls h = refl

  filled :
      (t : Table) (w : World F.Carrier) (fs : List (Flow F.Carrier))
      → Holds w.cell w.brk (members t) fs
      → is_null t ≡ false
      → fs ≢ []
  filled t w fs h loud nothing =
      let empty =
        Holds-nil w.cell w.brk (members t) (subst (Holds w.cell w.brk (members t)) nothing h) in
      let null = (U.is_null_iff t).1 empty in cc

  pub head_flow :
      (cell : ℕ → Option (Flow F.Carrier)) (brk : ℕ) (k : FlowKey) (p : ℕ) (rest : Members)
      (todo : List (Flow F.Carrier))
      → Holds cell brk ((k, p) ∷ rest) todo
      → (f : Flow F.Carrier) × (fs : List (Flow F.Carrier)) × (todo ≡ f ∷ fs)
        × Holds cell brk ((k, p) ∷ rest) (f ∷ fs)
  head_flow cell brk k p rest [] h = absurd h
  head_flow cell brk k p rest (f ∷ fs) h = (f, fs, refl, h)

  pub skips-Inv :
      (s : System F U) (t : Table) (ctx' : Context Table)
      → Inv F U net s
      → s.flusher ≡ awake
      → exchange_tables U s.ctx ≡ some (t, ctx')
      → is_null t ≡ true
      → Inv F U net
          (record s { ctx = ctx'; flusher = resting; current = []; closed = s.current ∷ s.closed })
  unfolding window owns all_calls window_calls
  skips-Inv s t ctx' v e x silent =
      let swap = exchange_lem s.ctx ctx' t v.table v.active x in
      let empty : members v.table ≡ [] = ap members (sym swap.0) ∙ (U.is_null_iff t).0 silent in
      let calls : s.world.calls ≡ all_calls F U net s.closed =
        subst (λ fl. Exports F U net fl v.table s.world s.closed) e v.exports in
      let held =
        subst (λ ms. Holds s.world.cell s.world.brk ms (window F net s.current)) empty v.held in
      let quiet = Holds-no_members s.world.cell s.world.brk (window F net s.current) held in
      record {
        table = null;
        active = swap.1;
        local = swap.2 ∙ v.local;
        held = rw U.members-null tt;
        exports =
            calls
            ∙ ap (λ fs. window_calls F topic_name fs (all_calls F U net s.closed)) (sym quiet);
        no_leak =
            λ q o o'. v.no_leak q (ap (owns q) empty) (ap (λ fl. owns q (nodes_left F U net fl)) e);
      }

  pub exchanges-Inv :
      (s : System F U) (t : Table) (ctx' : Context Table)
      → Inv F U net s
      → s.flusher ≡ awake
      → exchange_tables U s.ctx ≡ some (t, ctx')
      → is_null t ≡ false
      → Inv F U net (record s {
        ctx = ctx';
        flusher = exporting t (members t);
        current = [];
        closed = s.current ∷ s.closed;
      })
  unfolding window owns all_calls
  exchanges-Inv s t ctx' v e x loud =
      let swap = exchange_lem s.ctx ctx' t v.table v.active x in
      let calls : s.world.calls ≡ all_calls F U net s.closed =
        subst (λ fl. Exports F U net fl v.table s.world s.closed) e v.exports in
      let fs = window F net s.current in
      let held : Holds s.world.cell s.world.brk (members t) fs =
        subst (λ u. Holds s.world.cell s.world.brk (members u) fs) (sym swap.0) v.held in
      let some_flow : fs ≢ [] = λ none_left. filled t s.world fs held loud none_left in
      record {
        table = null;
        active = swap.1;
        local = swap.2 ∙ v.local;
        held = rw U.members-null tt;
        exports = record {
          todo = fs;
          left = refl;
          held = held;
          apart = λ q o. ap (owns q) U.members-null;
          pending =
              ap (λ c. flush 500 ∷ poll 0 ∷ sent F topic_name fs c) calls
              ∙ exported_calls fs (all_calls F U net s.closed) some_flow;
        };
        no_leak = λ q o o'.
            v.no_leak q (ap (λ u. owns q (members u)) (sym swap.0) ∙ o')
              (ap (λ fl. owns q (nodes_left F U net fl)) e);
      }

  pub sends-Inv :
      (s : System F U) (t t' : Table) (k : FlowKey) (p : ℕ) (rest : Members) (w' : World F.Carrier)
      → Inv F U net s
      → s.flusher ≡ exporting t ((k, p) ∷ rest)
      → send_one F U topic_name t p s.world ≡ ok t' w'
      → Inv F U net (record s { world = w'; flusher = exporting t' rest })
  unfolding owns sent
  sends-Inv s t t' k p rest w' v e sent_ok =
      let x : Exporting F U net t ((k, p) ∷ rest) v.table s.world s.closed =
        subst (λ fl. Exports F U net fl v.table s.world s.closed) e v.exports in
      let (f, fs, todo, held) = head_flow s.world.cell s.world.brk k p rest x.todo x.held in
      let sends = send_one-head F U topic_name t s.world k p rest f fs x.left held in
      let w = record s.world {
        cell = update s.world.cell p none;
        calls = produce topic_name (json_payload F f) ∷ s.world.calls;
      } in
      let same_table : U.del p t ≡ t' = ground (arith, sends) in
      let same_world : w ≡ w' = ground (arith, sends) in
      let apart = x.apart p (ground arith) in
      rw (← same_table, ← same_world)
        (record {
          table = v.table;
          active = v.active;
          local = v.local;
          held =
              Holds-update_other s.world.cell s.world.brk (members v.table) (window F net s.current)
                p none apart v.held;
          exports = record {
            todo = fs;
            left = remove_head U t k p rest x.left;
            held = Holds-update_other s.world.cell s.world.brk rest fs p none held.3 held.5;
            apart = λ q o. x.apart q (ground arith);
            pending =
                ap (λ l. flush 500 ∷ poll 0 ∷ sent F topic_name l s.world.calls) (sym todo)
                ∙ x.pending;
          };
          no_leak = λ q o o'. elim (Bool-cases (p == q)) [
            | inl freed ↦ ground arith
            | inr other ↦
                let before =
                  v.no_leak q o (ap (λ fl. owns q (nodes_left F U net fl)) e ∙ ground arith) in
                ground arith
          ];
        })
