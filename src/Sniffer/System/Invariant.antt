-- ===== src/Sniffer/System/Invariant.antt =====
-- What holds of the two threads at every point: the active table holds the current window, the
-- exported table what is left of the last one, and no other node is allocated.
use kaf_katch.Prelude.{ℕ, ◌≡◌, refl, true, false, none, some, List, [], ◌∷◌}
use kaf_katch.Double.{Double}
use kaf_katch.Sniffer.Stats.{PktStats}
use kaf_katch.Sniffer.Flow.{Flow}
use kaf_katch.Sniffer.Machine.{World, Call, poll, flush}
use kaf_katch.Sniffer.UtHash.{UtHash, Members}
use kaf_katch.Sniffer.Window.{Network, window}
use kaf_katch.Sniffer.Context.{table_at}
use kaf_katch.Sniffer.Context.Table.{owns, Holds}
use kaf_katch.Sniffer.Context.Process.{network}
use kaf_katch.Sniffer.Kafka.Send.{sent, window_calls}
use kaf_katch.Sniffer.System.{
  topic_name, Flusher, resting, awake, exporting, stopped, System, start,
}

module _ (F : Double) (U : UtHash) (net : Network) where
  open U use {Table, members, null, is_null}

  -- The calls of the export of some windows, the last window first.
  unfoldable pub all_calls : List (List PktStats) → List Call
  all_calls [] = []
  all_calls (history ∷ older) = window_calls F topic_name (window F net history) (all_calls older)

  pub record Exporting (t : Table) (rest : Members) (table : Table) (w : World F.Carrier)
      (closed : List (List PktStats)) : Type 0 where
    pub todo : List (Flow F.Carrier)
    pub left : members t ≡ rest
    pub held : Holds w.cell w.brk rest todo
    pub apart : (q : ℕ) → owns q rest ≡ true → owns q (members table) ≡ false
    pub pending : flush 500 ∷ poll 0 ∷ sent F topic_name todo w.calls ≡ all_calls closed

  abbrev pub Exports : Flusher F U → Table → World F.Carrier → List (List PktStats) → Type 0
  Exports (exporting t rest) table w closed = Exporting t rest table w closed
  Exports resting table w closed = w.calls ≡ all_calls closed
  Exports awake table w closed = w.calls ≡ all_calls closed
  Exports stopped table w closed = w.calls ≡ all_calls closed

  -- The nodes that the flusher still has.
  abbrev pub nodes_left : Flusher F U → Members
  nodes_left (exporting t rest) = rest
  nodes_left resting = []
  nodes_left awake = []
  nodes_left stopped = []

  pub record Inv (s : System F U) : Type 0 where
    pub table : Table
    pub active : table_at s.ctx s.ctx.active_idx ≡ some table
    pub local : network F U s.ctx ≡ net
    pub held : Holds s.world.cell s.world.brk (members table) (window F net s.current)
    pub exports : Exports s.flusher table s.world s.closed
    pub no_leak :
        (q : ℕ)
        → owns q (members table) ≡ false
        → owns q (nodes_left s.flusher) ≡ false
        → s.world.cell q ≡ none

  pub start-Inv : (quota : ℕ) → Inv (start F U net.net_ip net.net_mask quota)
  unfolding table_at window all_calls
  start-Inv quota = record {
    table = null;
    active = refl;
    local = refl;
    held = rw U.members-null tt;
    exports = refl;
    no_leak = λ q o o'. refl;
  }
