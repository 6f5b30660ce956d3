-- ===== src/Sniffer/Kafka/Send.antt =====
-- kafka_client_send_flows and flow_table_clear on a table that the heap holds.
use kaf_katch.Prelude.{
  ℕ, ◌≡◌, refl, ◌∙◌, ap, subst, inl, inr, ◌⊎◌, Bool-cases, true, false, Option, none, some, List,
  [], ◌∷◌, arith,
}
use kaf_katch.Double.{Double}
use kaf_katch.Sniffer.Stats.{FlowKey}
use kaf_katch.Sniffer.Flow.{Flow}
use kaf_katch.Sniffer.Machine.{World, ok, Call, produce, poll, flush, update}
use kaf_katch.Sniffer.UtHash.{UtHash, Members, remove}
use kaf_katch.Sniffer.Context.{touch, clear_loop, flow_table_clear}
use kaf_katch.Sniffer.Context.Table.{owns, Holds, Holds-update_other}
use kaf_katch.Sniffer.Context.Process.{touch-Holds}
use kaf_katch.Sniffer.Kafka.{json_payload, send_one, send_loop, kafka_client_send_flows}

module _ {D : Type 0} where
  -- The heap without the nodes of a table.
  unfoldable pub without : (ℕ → Option (Flow D)) → Members → ℕ → Option (Flow D)
  without cell [] = cell
  without cell ((k, p) ∷ ms) = without (update cell p none) ms

  pub without-owned :
      (cell : ℕ → Option (Flow D)) (ms : Members) (q : ℕ)
      → (owns q ms ≡ true) ⊎ (cell q ≡ none)
      → without cell ms q ≡ none
  unfolding without owns
  without-owned cell [] q h = ground arith
  without-owned cell ((k, p) ∷ ms) q h = without-owned (update cell p none) ms q (ground arith)

  pub without-other :
      (cell : ℕ → Option (Flow D)) (ms : Members) (q : ℕ)
      → owns q ms ≡ false
      → without cell ms q ≡ cell q
  unfolding without owns
  without-other cell [] q h = refl
  without-other cell ((k, p) ∷ ms) q h =
      without-other (update cell p none) ms q (ground arith) ∙ ground arith

pub Holds-nil :
    {D : Type 0} (cell : ℕ → Option (Flow D)) (brk : ℕ) (ms : Members)
    → Holds cell brk ms []
    → ms ≡ []
Holds-nil cell brk [] h = refl
Holds-nil cell brk (m ∷ ms) h = absurd h

pub remove_head :
    (U : UtHash) (t : U.Table) (k : FlowKey) (p : ℕ) (ms : Members)
    → U.members t ≡ (k, p) ∷ ms
    → U.members (U.del p t) ≡ ms
unfolding remove
remove_head U t k p ms e = U.members-del p t ∙ ap (remove p) e ∙ ground arith

module _ (F : Double) (topic : List ℕ) where
  -- The calls after the messages of some flows, newest first.
  unfoldable pub sent : List (Flow F.Carrier) → List Call → List Call
  sent [] calls = calls
  sent (f ∷ fs) calls = sent fs (produce topic (json_payload F f) ∷ calls)

module _ (F : Double) (U : UtHash) where
  open U use {Table, members, is_null}

  pub send_one-head :
      (topic : List ℕ) (t : Table) (w : World F.Carrier) (k : FlowKey) (p : ℕ) (ms : Members)
      (f : Flow F.Carrier) (fs : List (Flow F.Carrier))
      → members t ≡ (k, p) ∷ ms
      → Holds w.cell w.brk ((k, p) ∷ ms) (f ∷ fs)
      → send_one F U topic t p w
        ≡ ok (U.del p t) (record w {
          cell = update w.cell p none;
          calls = produce topic (json_payload F f) ∷ w.calls;
        })
  unfolding send_one
  send_one-head topic t w k p ms f fs e h =
      let w' = record w { calls = produce topic (json_payload F f) ∷ w.calls } in
      let seen : touch F (members t) w' ≡ ok tt w' =
        ap (λ l. touch F l w') e ∙ touch-Holds F w' ((k, p) ∷ ms) (f ∷ fs) h in
      ground (arith, seen)

  pub send_loop_lem :
      (topic : List ℕ) (t : Table) (w : World F.Carrier) (ms : Members) (fs : List (Flow F.Carrier))
      → members t ≡ ms
      → Holds w.cell w.brk ms fs
      → (t' : Table) × (send_loop F U topic ms t w
          ≡ ok t' (record w { cell = without w.cell ms; calls = sent F topic fs w.calls }))
        × (members t' ≡ [])
  unfolding send_loop without sent
  send_loop_lem topic t w [] [] e h = (t, refl, e)
  send_loop_lem topic t w [] (f ∷ fs) e h = absurd h
  send_loop_lem topic t w ((k, p) ∷ ms) [] e h = absurd h
  send_loop_lem topic t w ((k, p) ∷ ms) (f ∷ fs) e h =
      let w' = record w {
        cell = update w.cell p none;
        calls = produce topic (json_payload F f) ∷ w.calls;
      } in
      let (t', sends, empty) =
        send_loop_lem topic (U.del p t) w' ms fs (remove_head U t k p ms e)
          (Holds-update_other w.cell w.brk ms fs p none h.3 h.5) in
      (t', ground (arith, send_one-head topic t w k p ms f fs e h, sends), empty)

module _ (F : Double) (topic : List ℕ) where
  -- The calls after the export of a window: nothing for an empty one, and else a message for each
  -- flow, in order, then poll and flush.
  unfoldable pub window_calls : List (Flow F.Carrier) → List Call → List Call
  unfolding sent
  window_calls [] calls = calls
  window_calls (f ∷ fs) calls = flush 500 ∷ poll 0 ∷ sent F topic (f ∷ fs) calls

module _ (F : Double) (U : UtHash) where
  open U use {Table, members, is_null}

  is_null-nil :
      (t : Table) (w : World F.Carrier)
      → Holds w.cell w.brk (members t) []
      → (members t ≡ []) × (is_null t ≡ true)
  is_null-nil t w h =
      let empty = Holds-nil w.cell w.brk (members t) h in (empty, (U.is_null_iff t).1 empty)

  is_null-cons :
      (t : Table) (w : World F.Carrier) (f : Flow F.Carrier) (fs : List (Flow F.Carrier))
      → Holds w.cell w.brk (members t) (f ∷ fs)
      → is_null t ≡ false
  is_null-cons t w f fs h = elim (Bool-cases (is_null t)) [
    | inl null ↦ absurd (subst (λ ms. Holds w.cell w.brk ms (f ∷ fs)) ((U.is_null_iff t).0 null) h)
    | inr full ↦ full
  ]

  -- With a producer, the export of a table that the heap holds sends one message for each flow, in
  -- the order of the table, then polls and flushes; an empty table causes no call. It frees every
  -- node of the table and no other, and leaves the table empty.
  pub kafka_client_send_flows_lem :
      (topic : List ℕ) (t : Table) (w : World F.Carrier) (fs : List (Flow F.Carrier))
      → Holds w.cell w.brk (members t) fs
      → (t' : Table) × (kafka_client_send_flows F U true topic (some t) w
          ≡ ok (some t') (record w {
            cell = without w.cell (members t);
            calls = window_calls F topic fs w.calls;
          }))
        × (members t' ≡ [])
  unfolding kafka_client_send_flows window_calls without
  kafka_client_send_flows_lem topic t w [] h =
      let (empty, null) = is_null-nil t w h in
      (t, ground (arith, null, ap (without w.cell) empty), empty)
  kafka_client_send_flows_lem topic t w (f ∷ fs) h =
      let (t', sends, empty) = send_loop_lem F U topic t w (members t) (f ∷ fs) refl h in
      (t', ground (arith, is_null-cons t w f fs h, sends), empty)

  clear_loop_lem :
      (t : Table) (w : World F.Carrier) (ms : Members) (fs : List (Flow F.Carrier))
      → members t ≡ ms
      → Holds w.cell w.brk ms fs
      → (t' : Table) × (clear_loop F U ms t w ≡ ok t' (record w { cell = without w.cell ms }))
  unfolding clear_loop without
  clear_loop_lem t w [] [] e h = (t, refl)
  clear_loop_lem t w [] (f ∷ fs) e h = absurd h
  clear_loop_lem t w ((k, p) ∷ ms) [] e h = absurd h
  clear_loop_lem t w ((k, p) ∷ ms) (f ∷ fs) e h =
      let w' = record w { cell = update w.cell p none } in
      let seen : touch F (members t) w ≡ ok tt w =
        ap (λ l. touch F l w) e ∙ touch-Holds F w ((k, p) ∷ ms) (f ∷ fs) h in
      let (t', clears) =
        clear_loop_lem (U.del p t) w' ms fs (remove_head U t k p ms e)
          (Holds-update_other w.cell w.brk ms fs p none h.3 h.5) in
      (t', ground (arith, seen, clears))

  -- flow_table_clear frees every node of the table and no other, sends nothing and gives NULL.
  pub flow_table_clear_lem :
      (t : Table) (w : World F.Carrier) (fs : List (Flow F.Carrier))
      → Holds w.cell w.brk (members t) fs
      → flow_table_clear F U t w ≡ ok U.null (record w { cell = without w.cell (members t) })
  unfolding flow_table_clear
  flow_table_clear_lem t w fs h = ground (arith, clear_loop_lem t w (members t) fs refl h)
