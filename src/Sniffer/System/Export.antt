-- ===== src/Sniffer/System/Export.antt =====
-- What the two threads guarantee: no use of freed memory, no loss and no mixing of windows while
-- the program runs, and what the shutdown drops.
use kaf_katch.Prelude.{
  ℕ, ◌≤◌, ◌<◌, ◌≡◌, ◌≢◌, refl, sym, ◌∙◌, ap, subst, inl, inr, ◌⊎◌, Bool-cases, true, false, ◌==◌,
  none, some, List, [], ◌∷◌, length, All, arith,
}
use kaf_katch.Double.{Double}
use kaf_katch.Sniffer.Stats.{FlowKey, PktStats}
use kaf_katch.Sniffer.Machine.{World, ok, fault}
use kaf_katch.Sniffer.UtHash.{UtHash, Members}
use kaf_katch.Sniffer.Window.{Network, window}
use kaf_katch.Sniffer.Context.{Context, table_at, set_table, flow_process_packet}
use kaf_katch.Sniffer.Context.Table.{owns, Holds, Holds-no_members}
use kaf_katch.Sniffer.Context.Process.{
  flow_process_packet-Processed, flow_process_packet-out_of_memory,
}
use kaf_katch.Sniffer.Parser.{PcapPkthdr, Step, go, leave, stray, parse_frame, deliver, pkt_handler}
use kaf_katch.Sniffer.Parser.Bounds.{parse_frame-stray_iff}
use kaf_katch.Sniffer.Kafka.{send_one}
use kaf_katch.Sniffer.Kafka.Send.{
  Holds-nil, without, without-owned, window_calls, send_one-head, kafka_client_send_flows_lem,
}
use kaf_katch.Sniffer.System.{
  topic_name, exchange_tables, flush_round, resting, exporting, System, start, Reaches,
}
use kaf_katch.Sniffer.System.Invariant.{all_calls, Exporting, Exports, nodes_left, Inv}
use kaf_katch.Sniffer.System.Flushes.{head_flow, exchange_lem}
use kaf_katch.Sniffer.System.Reach.{Reaches-Inv}

module _ (F : Double) (U : UtHash) (net : Network) (quota : ℕ) {s : System F U}
    (r : Reaches F U (start F U net.net_ip net.net_mask quota) s) where
  open U use {Table, members, is_null}

  abbrev inv : Inv F U net s
  inv = Reaches-Inv F U net quota r

  -- Whenever flush_worker rests between two ticks, however the two threads interleaved, the calls
  -- of librdkafka so far are those of the closed windows, one after the other: for each window a
  -- message for each of its flows, in the order of their first packets, as the specification
  -- `window` gives them for the packets captured between two exchanges.
  pub calls-windows : s.flusher ≡ resting → s.world.calls ≡ all_calls F U net s.closed
  calls-windows e = subst (λ fl. Exports F U net fl inv.table s.world s.closed) e inv.exports

  process-ne-fault : (stats : PktStats) → flow_process_packet F U s.ctx stats s.world ≢ fault
  process-ne-fault stats bad = elim (Bool-cases (s.world.quota == 0)) [
    | inl spent ↦
        elim (flow_process_packet-out_of_memory F U s.ctx stats s.world inv.table _ inv.active
          inv.held (ground arith)) [ inl (new, x) ↦ cc | inr P ↦ let e = P.result in cc ]
    | inr room ↦
        let P =
          flow_process_packet-Processed F U s.ctx stats s.world inv.table _ inv.active inv.held
            (ground arith) in
        let e = P.result in cc
  ]

  deliver-ne-fault :
      (parsed : Step PktStats) → parsed ≢ stray → deliver F U s.ctx parsed s.world ≢ fault
  unfolding deliver
  deliver-ne-fault (go stats) h = process-ne-fault stats
  deliver-ne-fault leave h = λ e. cc
  deliver-ne-fault stray h = absurd (h refl)

  -- In every state that the two threads reach, pkt_handler uses no freed node and reads nothing
  -- outside the frame, for every frame of at least 18 captured bytes: the export that may be under
  -- way frees no node of the active table.
  pub pkt_handler-ne-fault :
      (h : PcapPkthdr) (bytes : List ℕ)
      → h.caplen ≡ length bytes
      → All (λ b. b < 256) bytes
      → 18 ≤ length bytes
      → pkt_handler F U s.ctx h bytes s.world ≢ fault
  unfolding pkt_handler
  pkt_handler-ne-fault h bytes e octets long =
      deliver-ne-fault (parse_frame h bytes)
        (λ bad. let short = (parse_frame-stray_iff h bytes e octets).0 bad in absurd (omega arith))

  -- In every state that the two threads reach with an export under way, the next round of the
  -- export's loop succeeds: it uses no freed node, and takes its entry off the table.
  pub send_one_succeeds :
      (t : Table) (k : FlowKey) (p : ℕ) (rest : Members)
      → s.flusher ≡ exporting t ((k, p) ∷ rest)
      → (w' : World F.Carrier) × (send_one F U topic_name t p s.world ≡ ok (U.del p t) w')
  send_one_succeeds t k p rest e =
      let x : Exporting F U net t ((k, p) ∷ rest) inv.table s.world s.closed =
        subst (λ fl. Exports F U net fl inv.table s.world s.closed) e inv.exports in
      let (f, fs, todo, held) = head_flow F U net s.world.cell s.world.brk k p rest x.todo x.held in
      (_, send_one-head F U topic_name t s.world k p rest f fs x.left held)

  -- In every state reached in which flush_worker rests and no packet has been captured since the
  -- last exchange, no node is allocated.
  pub no_leak_when_idle : s.flusher ≡ resting → s.current ≡ [] → (q : ℕ) → s.world.cell q ≡ none
  unfolding owns window
  no_leak_when_idle e idle q =
      let held : Holds s.world.cell s.world.brk (members inv.table) [] =
        subst (λ hist. Holds s.world.cell s.world.brk (members inv.table) (window F net hist)) idle
          inv.held in
      let empty = Holds-nil s.world.cell s.world.brk (members inv.table) held in
      inv.no_leak q (ap (owns q) empty) (ap (λ fl. owns q (nodes_left F U net fl)) e)

  gone :
      (q : ℕ)
      → owns q (nodes_left F U net s.flusher) ≡ false
      → (owns q (members inv.table) ≡ true) ⊎ (s.world.cell q ≡ none)
  gone q idle = elim (Bool-cases (owns q (members inv.table))) [
    | inl mine ↦ inl mine
    | inr other ↦ inr (inv.no_leak q other idle)
  ]

  pub exchange_succeeds :
      (ctx : Context Table) (t : Table)
      → table_at ctx ctx.active_idx ≡ some t
      → (ctx' : Context Table) × (exchange_tables U ctx ≡ some (t, ctx'))
  unfolding exchange_tables table_at set_table
  exchange_succeeds ctx t a = elim (Bool-cases (ctx.active_idx == 0)) [
    | inl first ↦ (record ctx { active_idx = 1; table_1 = U.null }, ground arith)
    | inr other ↦ (record ctx { active_idx = 0; table_0 = U.null }, ground arith)
  ]

  -- From every state reached in which flush_worker rests, a round of it into which no frame comes
  -- succeeds. It sends the messages of the current window, leaves no node allocated, and goes on
  -- with an empty active table.
  pub flush_round_lem :
      s.flusher ≡ resting
      → (ctx' : Context Table) × (w' : World F.Carrier) × (flush_round F U s.ctx s.world
          ≡ ok ctx' w')
        × (w'.calls ≡ all_calls F U net (s.current ∷ s.closed))
        × ((q : ℕ) → w'.cell q ≡ none)
        × (table_at ctx' ctx'.active_idx ≡ some U.null)
  unfolding flush_round all_calls window_calls owns
  flush_round_lem e =
      let (ctx', x) = exchange_succeeds s.ctx inv.table inv.active in
      let swap = exchange_lem F U net s.ctx ctx' inv.table inv.table inv.active x in
      let fs = window F net s.current in
      let calls = calls-windows e in
      let idle = λ (q : ℕ). ap (λ fl. owns q (nodes_left F U net fl)) e in
      elim (Bool-cases (is_null inv.table)) [
        | inl silent ↦
            let empty = (U.is_null_iff inv.table).0 silent in
            let held : Holds s.world.cell s.world.brk [] fs =
              subst (λ ms. Holds s.world.cell s.world.brk ms fs) empty inv.held in
            let quiet = Holds-no_members s.world.cell s.world.brk fs held in
            (
              ctx',
              s.world,
              ground (arith, x, silent),
              calls
                  ∙ ap (λ l. window_calls F topic_name l (all_calls F U net s.closed)) (sym quiet),
              λ q. inv.no_leak q (ap (owns q) empty) (idle q),
              swap.1,
            )
        | inr loud ↦
            let (t', sent_ok, empty) =
              kafka_client_send_flows_lem F U topic_name inv.table s.world fs inv.held in
            (
              ctx',
              record s.world {
                cell = without s.world.cell (members inv.table);
                calls = window_calls F topic_name fs s.world.calls;
              },
              ground (arith, x, loud, sent_ok),
              ap (window_calls F topic_name fs) calls,
              λ q. without-owned s.world.cell (members inv.table) q (gone q (idle q)),
              swap.1,
            )
      ]
