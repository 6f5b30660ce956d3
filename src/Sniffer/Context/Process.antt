-- ===== src/Sniffer/Context/Process.antt =====
-- flow_process_packet refines the specification of a window.
use kaf_katch.Prelude.{
  ℕ, suc, ◌+◌, ◌-◌, ◌≤◌, ◌<◌, ◌≡◌, refl, ap, inl, inr, ◌⊎◌, Option-cases, false, Option, none, some,
  List, [], ◌∷◌, arith,
}
use kaf_katch.Double.{Double}
use kaf_katch.Sniffer.Stats.{PktStats}
use kaf_katch.Sniffer.Flow.{Flow, new_flow, flow_update_stats}
use kaf_katch.Sniffer.Machine.{World, Run, ok, exits, update}
use kaf_katch.Sniffer.UtHash.{UtHash, Members, lookup}
use kaf_katch.Sniffer.Window.{Network, open_flow, capture}
use kaf_katch.Sniffer.Context.{
  Context, table_at, set_table, exit_failure, touch, set_table_lem, flow_process_packet,
}
use kaf_katch.Sniffer.Context.Table.{
  owns, Holds, Holds-HasUniqueKeys, Holds-frame, Holds-snoc, owns-append, update-key, capture-miss,
  capture-hit,
}

module _ (F : Double) where
  -- No macro faults on a table that the heap holds.
  pub touch-Holds :
      (w : World F.Carrier) (ms : Members) (fs : List (Flow F.Carrier))
      → Holds w.cell w.brk ms fs
      → touch F ms w ≡ ok tt w
  unfolding touch
  touch-Holds w [] fs h = refl
  touch-Holds w ((k, p) ∷ ms) [] h = absurd h
  touch-Holds w ((k, p) ∷ ms) (f ∷ fs) h = ground (arith, touch-Holds w ms fs h.5)

module _ (F : Double) (U : UtHash) where
  open U use {Table, members, find-members}

  abbrev pub network : Context Table → Network
  network ctx = record { net_ip = ctx.net_ip; net_mask = ctx.net_mask }

  -- The effect of one packet on the heap and the active table.
  pub record Processed (ctx : Context Table) (t : Table) (w : World F.Carrier)
      (fs : List (Flow F.Carrier)) (r : Run F.Carrier (Context Table)) : Type 0 where
    pub world : World F.Carrier
    pub table : Table
    pub context : Context Table
    pub result : r ≡ ok context world
    pub stored : set_table ctx ctx.active_idx table ≡ some context
    pub holds : Holds world.cell world.brk (members table) fs
    -- no other node changes, and the new node of a miss is at a new address
    pub frame :
        (q : ℕ)
        → q < w.brk
        → owns q (members t) ≡ false
        → (world.cell q ≡ w.cell q) × (owns q (members table) ≡ false)
    pub outside :
        (q : ℕ)
        → owns q (members table) ≡ false
        → (owns q (members t) ≡ false) × (world.cell q ≡ w.cell q)
    pub grows : w.brk ≤ world.brk
    pub silent : world.calls ≡ w.calls
    pub spends : w.quota ≤ world.quota + 1

  module _ (ctx : Context Table) (s : PktStats) (w : World F.Carrier) (t : Table)
      (fs : List (Flow F.Carrier)) (active : table_at ctx ctx.active_idx ≡ some t)
      (h : Holds w.cell w.brk (members t) fs) where
    process-hit :
        (p : ℕ)
        → lookup s.key (members t) ≡ some p
        → Processed ctx t w (capture F (network ctx) s fs) (flow_process_packet F U ctx s w)
    unfolding flow_process_packet table_at set_table
    process-hit p e =
        let (f, held, mine, rest) =
          capture-hit F (network ctx) w.cell w.brk (members t) fs s p e h in
        record {
          world = record w { cell = update w.cell p (some (flow_update_stats F f s)) };
          table = t;
          context = ctx;
          result = ground (
            arith,
            active,
            touch-Holds F w (members t) fs h,
            find-members s.key t (Holds-HasUniqueKeys w.cell w.brk (members t) fs h),
            e,
            held,
          );
          stored = ground (arith, active);
          holds = rest;
          frame = λ q lt o. (ground arith, o);
          outside = λ q o. (o, ground arith);
          grows = omega arith;
          silent = refl;
          spends = omega arith;
        }

    -- The nodes on the way of a miss: calloc's, with its direction, with the packet.
    abbrev blank : ℕ → Option (Flow F.Carrier)
    blank = update w.cell w.brk (some (new_flow F s.key))

    abbrev opened : ℕ → Option (Flow F.Carrier)
    opened = update blank w.brk (some (open_flow F (network ctx) s.key))

    abbrev counted : ℕ → Option (Flow F.Carrier)
    counted = update opened w.brk (some (flow_update_stats F (open_flow F (network ctx) s.key) s))

    opened-Holds : Holds opened (suc w.brk) (members t) fs
    opened-Holds =
        Holds-frame w.cell opened w.brk (suc w.brk) (members t) fs (omega arith)
          (λ q lt o. ground arith) h

    counted-Holds :
        lookup s.key (members t) ≡ none
        → Holds counted (suc w.brk) (members (U.add s.key w.brk t)) (capture F (network ctx) s fs)
    unfolding open_flow new_flow
    counted-Holds new =
        let f' = flow_update_stats F (open_flow F (network ctx) s.key) s in
        let snoc = Holds-snoc w.cell w.brk (members t) fs f' s.key (update-key F _ s) new h in
        rw
          (
            U.members-add s.key w.brk t new,
            capture-miss F (network ctx) w.cell w.brk (members t) fs s new h,
          )
          (Holds-frame (update w.cell w.brk (some f')) counted (suc w.brk) (suc w.brk) _ _
            (omega arith) (λ q lt o. ground arith) snoc)

    process-miss :
        lookup s.key (members t) ≡ none
        → 0 < w.quota
        → Processed ctx t w (capture F (network ctx) s fs) (flow_process_packet F U ctx s w)
    unfolding flow_process_packet open_flow
    process-miss new room =
        let (ctx', set) = set_table_lem ctx ctx.active_idx t (U.add s.key w.brk t) active in
        record {
          world = record { cell = counted; brk = suc w.brk; quota = w.quota - 1; calls = w.calls };
          table = U.add s.key w.brk t;
          context = ctx';
          result = ground (
            arith,
            active,
            touch-Holds F w (members t) fs h,
            touch-Holds F
                (record { cell = opened; brk = suc w.brk; quota = w.quota - 1; calls = w.calls })
                (members t) fs opened-Holds,
            find-members s.key t (Holds-HasUniqueKeys w.cell w.brk (members t) fs h),
            new,
            set,
          );
          stored = set;
          holds = counted-Holds new;
          frame = λ q lt o. (
            ground arith,
            rw (U.members-add s.key w.brk t new)
                (ground (arith, owns-append q s.key w.brk (members t))),
          );
          outside = λ q o. ground (
            arith,
            ap (owns q) (U.members-add s.key w.brk t new),
            owns-append q s.key w.brk (members t),
          );
          grows = omega arith;
          silent = refl;
          spends = omega arith;
        }

    -- If the active table stands for the flows `fs` and memory is left for one node more,
    -- flow_process_packet succeeds and its active table stands for what the specification `capture`
    -- makes of the packet and `fs`.
    pub flow_process_packet-Processed :
        0 < w.quota
        → Processed ctx t w (capture F (network ctx) s fs) (flow_process_packet F U ctx s w)
    flow_process_packet-Processed room = elim (Option-cases (lookup s.key (members t))) [
      | inl new ↦ process-miss new room
      | inr (p, old) ↦ process-hit p old
    ]

    -- If the active table stands for the flows `fs` and no memory is left, either the packet is of a
    -- new flow and flow_process_packet ends the process with a failure, or it is recorded as
    -- `capture` says.
    pub flow_process_packet-out_of_memory :
        w.quota ≡ 0
        → ((lookup s.key (members t) ≡ none)
            × (flow_process_packet F U ctx s w ≡ exits exit_failure))
          ⊎ Processed ctx t w (capture F (network ctx) s fs) (flow_process_packet F U ctx s w)
    unfolding flow_process_packet
    flow_process_packet-out_of_memory none_left = elim (Option-cases (lookup s.key (members t))) [
      | inl new ↦ inl (
        new,
        ground (
          arith,
          active,
          touch-Holds F w (members t) fs h,
          find-members s.key t (Holds-HasUniqueKeys w.cell w.brk (members t) fs h),
          new,
        ),
      )
      | inr (p, old) ↦ inr (process-hit p old)
    ]
