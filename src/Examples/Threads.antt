-- ===== src/Examples/Threads.antt =====
-- The theorems on the threads and on the start-up at concrete inputs.
use kaf_katch.Sniffer.System.Shutdown.{Shuts, shutdown_drops_window}
use kaf_katch.Sniffer.System.Nodes.{Tells, find-Tells, nodes_distinct}
use kaf_katch.Sniffer.System.Invariant.{nodes_left}
use kaf_katch.Sniffer.System.{System, Reaches, stopped}
use kaf_katch.Sniffer.Context.{table_at}
use kaf_katch.Sniffer.Context.Table.{owns}
use kaf_katch.Sniffer.Machine.{payloads}
use kaf_katch.Sniffer.Window.{of_key}
use kaf_katch.Sniffer.UtHash.{Members, list_table}
use kaf_katch.Sniffer.Stats.{FlowKey}
use kaf_katch.Sniffer.Flow.{ipproto_tcp}
use kaf_katch.Sniffer.Parser.Packet.{stats_of}
use kaf_katch.Samples.{
  captured, exporting_run, lan, syn_header, upload, ready, int_double, exported, stopping_run,
  wound,
}
use kaf_katch.Prelude.{
  ℕ, low_mask, false, some, ◌≤◌, ◌≡◌, ◌↔◌, refl, true, none, List, [], drop, arith,
}
use kaf_katch.Sniffer.Startup.{
  Action, main, capture_frames, handle_sigint, kafka_client_init, start_capture, setup_pcap,
  open_capture, set_all, kafka_client_cleanup,
}
use kaf_katch.Sniffer.Startup.Release.{held, use_held, handle_sigint-misuse_iff}
use kaf_katch.Sniffer.System.Messages.{reports, calls-reports}
use kaf_katch.Sniffer.System.Progress.{Delivers, flush_worker-Delivers}
use kaf_katch.Sniffer.System.Ends.{worker_moves, worker_moves_bounded, Joins, flush_worker-Joins}

calls-reports_example : exported.last.world.calls ≡ reports int_double lan exported.last.closed
unfolding exported
calls-reports_example =
    calls-reports int_double list_table (λ d. omega arith) lan 10 exported.reach refl

worker_moves_bounded_example : worker_moves int_double list_table wound.reach ≤ 3
unfolding wound
worker_moves_bounded_example = worker_moves_bounded int_double list_table wound.reach refl

flush_worker-Delivers_example : Delivers int_double list_table lan 10 exporting_run.last
unfolding exporting_run
flush_worker-Delivers_example =
    flush_worker-Delivers int_double list_table lan 10 exporting_run.reach refl

flush_worker-Joins_example : Joins int_double list_table lan 10 stopping_run.last
unfolding stopping_run
flush_worker-Joins_example = flush_worker-Joins int_double list_table lan 10 stopping_run.reach refl

-- What main did up to pcap_loop, in the order of the log.
abbrev before_loop : List Action
before_loop = drop 10 (main ready true []).1

handle_sigint-misuse_iff_example :
    (held ready (handle_sigint ready true (drop 2 (capture_frames ready before_loop).1)).1 ≡ none)
    ↔ (2 ≤ 3)
unfolding held kafka_client_init start_capture setup_pcap open_capture set_all capture_frames
    kafka_client_cleanup use_held
handle_sigint-misuse_iff_example =
    handle_sigint-misuse_iff ready before_loop 2 (unfold main in refl) (omega arith)

shutdown_drops_window_example :
    (t : System int_double list_table) × Reaches int_double list_table captured.last t
    × (t.flusher ≡ stopped)
    × (t.current ≡ captured.last.current)
    × (t.world ≡ captured.last.world)
    × ((u : System int_double list_table)
        → Shuts int_double list_table t u
        → (payloads u.world.calls ≡ payloads captured.last.world.calls)
          × (u.world.cell ≡ captured.last.world.cell))
unfolding captured
shutdown_drops_window_example = shutdown_drops_window int_double list_table captured.last refl

abbrev syn_key : FlowKey
syn_key = (stats_of syn_header upload ipproto_tcp 45764 443 2 3).key

find-Tells_example :
    (t : Members) × (table_at captured.last.ctx captured.last.ctx.active_idx ≡ some t)
    × Tells int_double lan 24 captured.last.world.cell syn_key
        (list_table.find syn_key t)
        (of_key syn_key captured.last.current)
unfolding captured
find-Tells_example =
    find-Tells int_double list_table lan 10 captured.reach 24 syn_key (unfold low_mask in refl)
      (unfold low_mask in omega arith) (omega arith)

-- The node that was captured while the one before it is exported.
nodes_distinct_example :
    (◌≡◌ {A = ℕ} 2 2)
    × (owns 2 (nodes_left int_double list_table lan exporting_run.last.flusher) ≡ false)
unfolding exporting_run owns table_at
nodes_distinct_example =
    nodes_distinct int_double list_table lan 10 exporting_run.reach _ 2 2 _ _ refl refl refl refl
      refl refl
