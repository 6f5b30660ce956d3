-- ===== src/Sniffer/System/Shutdown.antt =====
-- The end of main (sniffer/src/main.c) behind pcap_loop, with the clean-up of Kafka, and the window
-- that is then in the active table.
use kaf_katch.Prelude.{ℕ, ◌≡◌, refl, ap, false, Option, List, ◌∷◌}
use kaf_katch.Double.{Double}
use kaf_katch.Sniffer.Flow.{Flow}
use kaf_katch.Sniffer.Machine.{Call, flush, destroy, wait_destroyed, payloads}
use kaf_katch.Sniffer.UtHash.{UtHash}
use kaf_katch.Sniffer.System.{
  resting, stopped, System, Moves, captures, stops, wakes, returns, skips, exchanges, sends,
  finishes, Reaches, here, next,
}

module _ (F : Double) (U : UtHash) where
  -- A call of librdkafka by main.
  abbrev pub called : Call → System F U → System F U
  called c s = record s { world = record s.world { calls = c ∷ s.world.calls } }

  -- The states of a run of the whole process: those of the two threads, and, behind pthread_join,
  -- those after each call of kafka_client_cleanup and after that of rd_kafka_wait_destroyed, with
  -- which main comes to its end.
  pub data Shuts (s : System F U) : System F U → Type 0 where
    threads : {t : System F U} → Reaches F U s t → Shuts s t
    flushes :
        {t : System F U} → Reaches F U s t → t.flusher ≡ stopped → Shuts s (called (flush 5000) t)
    destroys :
        {t : System F U}
        → Reaches F U s t
        → t.flusher ≡ stopped
        → Shuts s (called destroy (called (flush 5000) t))
    waits :
        {t : System F U}
        → Reaches F U s t
        → t.flusher ≡ stopped
        → Shuts s (called (wait_destroyed 5000) (called destroy (called (flush 5000) t)))

  -- The thread is over, and neither the messages nor the heap change.
  record IsOver (calls : List Call) (cell : ℕ → Option (Flow F.Carrier)) (s : System F U)
      : Type 0 where
    over : s.flusher ≡ stopped
    halted : s.ctx.is_running ≡ false
    silent : s.world.calls ≡ calls
    frozen : s.world.cell ≡ cell

  module _ {calls : List Call} {cell : ℕ → Option (Flow F.Carrier)} where
    Moves-IsOver : {s t : System F U} → Moves F U s t → IsOver calls cell s → IsOver calls cell t
    Moves-IsOver (captures h bytes running octets e) o = let h' = o.halted in cc
    Moves-IsOver stops o = record {
      over = o.over;
      halted = refl;
      silent = o.silent;
      frozen = o.frozen;
    }
    Moves-IsOver (wakes e running) o = let h' = o.halted in cc
    Moves-IsOver (returns e stopping) o = record {
      over = refl;
      halted = o.halted;
      silent = o.silent;
      frozen = o.frozen;
    }
    Moves-IsOver (skips e x q) o = let h' = o.over in cc
    Moves-IsOver (exchanges e x q) o = let h' = o.over in cc
    Moves-IsOver (sends e x) o = let h' = o.over in cc
    Moves-IsOver (finishes e) o = let h' = o.over in cc

    Reaches-IsOver :
        {s t : System F U} → Reaches F U s t → IsOver calls cell s → IsOver calls cell t
    Reaches-IsOver here o = o
    Reaches-IsOver (next r m) o = Moves-IsOver m (Reaches-IsOver r o)

    Shuts-payloads :
        {s u : System F U}
        → Shuts s u
        → IsOver calls cell s
        → (payloads u.world.calls ≡ payloads calls) × (u.world.cell ≡ cell)
    unfolding payloads
    Shuts-payloads (threads r) o = let v = Reaches-IsOver r o in (ap payloads v.silent, v.frozen)
    Shuts-payloads (flushes r e) o = let v = Reaches-IsOver r o in (ap payloads v.silent, v.frozen)
    Shuts-payloads (destroys r e) o = let v = Reaches-IsOver r o in (ap payloads v.silent, v.frozen)
    Shuts-payloads (waits r e) o = let v = Reaches-IsOver r o in (ap payloads v.silent, v.frozen)

  -- The shutdown drops the last window. From any state in which flush_worker rests, main may clear
  -- `is_running` and the worker return with the current window still in its table; whatever follows,
  -- up to the end of main with its clean-up of Kafka, no message is sent any more and the heap stays
  -- as it is, so the flows of that window are neither sent nor freed.
  pub shutdown_drops_window :
      (s : System F U)
      → s.flusher ≡ resting
      → (t : System F U) × Reaches F U s t
        × (t.flusher ≡ stopped)
        × (t.current ≡ s.current)
        × (t.world ≡ s.world)
        × ((u : System F U)
            → Shuts t u
            → (payloads u.world.calls ≡ payloads s.world.calls) × (u.world.cell ≡ s.world.cell))
  shutdown_drops_window s e = (
    record s { ctx = record s.ctx { is_running = false }; flusher = stopped },
    next (next here stops) (returns e refl),
    refl,
    refl,
    refl,
    λ u r. Shuts-payloads r (record { over = refl; halted = refl; silent = refl; frozen = refl }),
  )
