-- ===== src/Sniffer/System.antt =====
-- sniffer/src/main.c: the capture thread, which runs pkt_handler for each frame inside pcap_loop,
-- and the thread of flush_worker, over one context. The mutex makes the update of a table and the
-- exchange of the tables atomic; the export of a window runs beside the capture, node by node.
pub mod Invariant
pub mod Captures
pub mod Flushes
pub mod Reach
pub mod Export
pub mod Messages
pub mod Nodes
pub mod Shutdown
pub mod Works
pub mod Ends
pub mod Progress
use kaf_katch.Prelude.{
  All, ◌<◌, ℕ, ◌≡◌, Bool, true, false, ◌==◌, if◌then◌else◌, Option, none, some, List, [], ◌∷◌,
}
use kaf_katch.Text.{codes}
use kaf_katch.Double.{Double}
use kaf_katch.Sniffer.Stats.{FlowKey, PktStats}
use kaf_katch.Sniffer.Flow.{Flow}
use kaf_katch.Sniffer.Machine.{World, Run, Prog, ok, Call, poll, flush, pure, ◌>>=◌, need}
use kaf_katch.Sniffer.UtHash.{UtHash, Members}
use kaf_katch.Sniffer.Context.{Context, table_at, set_table}
use kaf_katch.Sniffer.Parser.{PcapPkthdr, Step, go, leave, stray, parse_frame, pkt_handler}
use kaf_katch.Sniffer.Kafka.{send_one, kafka_client_send_flows}

abbrev pub topic_name : List ℕ
topic_name = codes "network-microflows-raw"

-- `!i`
abbrev pub negate : ℕ → ℕ
negate i = if i == 0 then 1 else 0

-- The packet of a frame joins the current window.
abbrev pub join_window : Step PktStats → List PktStats → List PktStats
join_window (go s) history = s ∷ history
join_window leave history = history
join_window stray history = history

module _ (U : UtHash) where
  open U use {Table, null, is_null}

  -- The critical section of flush_worker: `table_to_export` and the context after it.
  unfoldable pub exchange_tables : Context Table → Option (Table × Context Table)
  unfolding table_at set_table
  exchange_tables ctx = elim (table_at ctx ctx.active_idx) [
    | none ↦ none
    | some table_to_export ↦
        let flipped = record ctx { active_idx = negate ctx.active_idx } in
        elim (set_table flipped flipped.active_idx null) [
          | none ↦ none
          | some ctx' ↦ some (table_to_export, ctx')
        ]
  ]

module _ (F : Double) (U : UtHash) where
  open U use {Table, null, is_null, members}

  -- One round of flush_worker, where no frame comes in between.
  unfoldable pub flush_round : Context Table → Prog F.Carrier (Context Table)
  flush_round ctx = do
    (table_to_export, ctx') ← need (exchange_tables U ctx)
    if is_null table_to_export
        then pure ctx'
        else (do _ ← kafka_client_send_flows F U true topic_name (some table_to_export); pure ctx')

  -- Where the thread of flush_worker stands.
  pub data Flusher : Type 0 where
    -- before the test of `is_running`, at the start or after the sleep
    resting : Flusher
    -- behind that test
    awake : Flusher
    -- in the loop of kafka_client_send_flows, with the nodes that are left
    exporting : Table → Members → Flusher
    -- returned
    stopped : Flusher

  -- `current` and `closed` are no state of the program: the packets since the last exchange and
  -- those of the windows before it, each newest first.
  pub record System : Type 0 where
    pub ctx : Context Table
    pub world : World F.Carrier
    pub flusher : Flusher
    pub current : List PktStats
    pub closed : List (List PktStats)

  -- The moves of the two threads. What main calls behind pthread_join is in `System.Shutdown`.
  pub data Moves (s : System) : System → Type 0 where
    -- pcap_loop delivers a frame; main has not got past it while `is_running` holds
    captures :
        (h : PcapPkthdr) (bytes : List ℕ) {ctx' : Context Table} {w' : World F.Carrier}
        → s.ctx.is_running ≡ true
        → All (λ b. b < 256) bytes
        → pkt_handler F U s.ctx h bytes s.world ≡ ok ctx' w'
        → Moves s (record s {
          ctx = ctx';
          world = w';
          current = join_window (parse_frame h bytes) s.current;
        })
    -- main, after pcap_loop
    stops : Moves s (record s { ctx = record s.ctx { is_running = false } })
    wakes : s.flusher ≡ resting → s.ctx.is_running ≡ true → Moves s (record s { flusher = awake })
    returns :
        s.flusher ≡ resting → s.ctx.is_running ≡ false → Moves s (record s { flusher = stopped })
    -- the tick of a silent second
    skips :
        {t : Table} {ctx' : Context Table}
        → s.flusher ≡ awake
        → exchange_tables U s.ctx ≡ some (t, ctx')
        → is_null t ≡ true
        → Moves s (record s {
          ctx = ctx';
          flusher = resting;
          current = [];
          closed = s.current ∷ s.closed;
        })
    exchanges :
        {t : Table} {ctx' : Context Table}
        → s.flusher ≡ awake
        → exchange_tables U s.ctx ≡ some (t, ctx')
        → is_null t ≡ false
        → Moves s (record s {
          ctx = ctx';
          flusher = exporting t (members t);
          current = [];
          closed = s.current ∷ s.closed;
        })
    -- one round of the loop over the exported table
    sends :
        {t t' : Table} {k : FlowKey} {p : ℕ} {rest : Members} {w' : World F.Carrier}
        → s.flusher ≡ exporting t ((k, p) ∷ rest)
        → send_one F U topic_name t p s.world ≡ ok t' w'
        → Moves s (record s { world = w'; flusher = exporting t' rest })
    -- poll and flush, then the sleep
    finishes :
        {t : Table}
        → s.flusher ≡ exporting t []
        → Moves s (record s {
          world = record s.world { calls = flush 500 ∷ poll 0 ∷ s.world.calls };
          flusher = resting;
        })

  -- What `main` starts the threads with.
  abbrev pub start : (net_ip net_mask quota : ℕ) → System
  start net_ip net_mask quota = record {
    ctx = record {
      table_0 = null;
      table_1 = null;
      active_idx = 0;
      net_ip = net_ip;
      net_mask = net_mask;
      is_running = true;
    };
    world = record { cell = λ _. none; brk = 1; quota = quota; calls = [] };
    flusher = resting;
    current = [];
    closed = [];
  }

  pub data Reaches (s : System) : System → Type 0 where
    here : Reaches s s
    next : {t u : System} → Reaches s t → Moves t u → Reaches s u
