-- ===== src/Sniffer/Startup/Release.antt =====
-- What main has from librdkafka, libpcap and pthread at each call, and that it gives that back. The
-- heap is not part of this.
use kaf_katch.Prelude.Int.{is_zero}
use kaf_katch.Prelude.{
  ℕ, zero, suc, ◌≤◌, ◌↔◌, drop, ◌≡◌, Bool, true, false, not, ◌&&◌, if◌then◌else◌, Option, none,
  some, List, [], ◌∷◌, arith,
}
use kaf_katch.Sniffer.Startup.{
  Host, is_pcap_error, Action, conf_new, conf_set_dr_msg_cb, conf_destroy, producer_new,
  producer_destroy, conf_set, producer_flush, wait_destroyed, mutex_init, mutex_destroy,
  thread_create, stop_running, thread_join, pcap_findalldevs, pcap_freealldevs, pcap_lookupnet,
  pcap_init, pcap_create, pcap_activate, pcap_datalink, pcap_loop, pcap_breakloop, pcap_stats,
  pcap_close, set_sigint, set_snaplen, set_promisc, set_immediate_mode, set_timeout,
  set_buffer_size, capture_frames, kafka_client_cleanup, handle_sigint,
}

-- The objects that main has from librdkafka, libpcap and pthread. The flow nodes are not among them.
pub record Handles : Type 0 where
  pub conf : Bool
  pub producer : Bool
  pub mutex : Bool
  pub thread : Bool
  pub stopping : Bool
  pub handle : Bool
  pub devs : Bool

abbrev pub no_handles : Handles
no_handles = record {
  conf = false;
  producer = false;
  mutex = false;
  thread = false;
  stopping = false;
  handle = false;
  devs = false;
}

abbrev guard : Bool → Handles → Option Handles
guard b h = if b then some h else none

module _ (host : Host) where
  -- The effect of a call that is used as it is meant, none for a misuse: the mutex and the producer
  -- outlive the thread that uses them, which is joined only once it is told to stop.
  unfoldable pub use_held : Action → Handles → Option Handles
  use_held conf_new h = guard (not h.conf) (record h { conf = true })
  use_held (conf_set name value) h = guard h.conf h
  use_held conf_set_dr_msg_cb h = guard h.conf h
  use_held conf_destroy h = guard h.conf (record h { conf = false })
  use_held producer_new h =
      guard (h.conf && not h.producer)
        (if is_zero (host producer_new) then h else record h { conf = false; producer = true })
  use_held (producer_flush n) h = guard h.producer h
  use_held producer_destroy h = guard (h.producer && not h.thread) (record h { producer = false })
  use_held (wait_destroyed n) h = guard (not h.producer) h
  use_held mutex_init h = guard (not h.mutex) (record h { mutex = true })
  use_held mutex_destroy h = guard (h.mutex && not h.thread) (record h { mutex = false })
  use_held thread_create h =
      guard (h.mutex && h.producer && not h.thread)
        (record h { thread = is_zero (host thread_create) })
  use_held stop_running h = guard h.thread (record h { stopping = true })
  use_held thread_join h =
      guard (h.thread && h.stopping) (record h { thread = false; stopping = false })
  use_held pcap_findalldevs h =
      guard (not h.devs) (record h { devs = not (is_pcap_error (host pcap_findalldevs)) })
  use_held pcap_freealldevs h = guard h.devs (record h { devs = false })
  use_held pcap_lookupnet h = some h
  use_held pcap_init h = some h
  use_held pcap_create h =
      guard (not h.handle) (record h { handle = not (is_zero (host pcap_create)) })
  use_held pcap_activate h = guard h.handle h
  use_held pcap_datalink h = guard h.handle h
  use_held pcap_loop h = guard (h.handle && h.thread) h
  use_held pcap_breakloop h = guard h.handle h
  use_held pcap_stats h = guard h.handle h
  use_held pcap_close h = guard h.handle (record h { handle = false })
  use_held set_sigint h = some h
  use_held (set_snaplen n) h = guard h.handle h
  use_held (set_promisc n) h = guard h.handle h
  use_held (set_immediate_mode n) h = guard h.handle h
  use_held (set_timeout n) h = guard h.handle h
  use_held (set_buffer_size n) h = guard h.handle h

  abbrev then_use : Action → Option Handles → Option Handles
  then_use a none = none
  then_use a (some h) = use_held a h

  -- What is held after a list of calls, newest first.
  unfoldable pub held : List Action → Option Handles
  held [] = some no_handles
  held (a ∷ log) = then_use a (held log)

  -- What main holds while it captures.
  abbrev pub capturing : Handles
  capturing = record no_handles { producer = true; mutex = true; thread = true; handle = true }

  -- If main holds the producer, the mutex, the thread and the capture handle when it installs the
  -- handler, and a signal comes after all but the last n of its calls from the installation of the
  -- handler on: handle_sigint uses the closed capture handle exactly if at most three calls are left,
  -- those of the clean-up of Kafka, and uses it rightly before.
  pub handle_sigint-misuse_iff :
      (log : List Action) (n : ℕ)
      → held log ≡ some capturing
      → n ≤ 9
      → (held (handle_sigint host true (drop n (capture_frames host log).1)).1 ≡ none) ↔ (n ≤ 3)
  unfolding handle_sigint capture_frames kafka_client_cleanup held use_held
  handle_sigint-misuse_iff log zero e h = ground arith
  handle_sigint-misuse_iff log (suc zero) e h = ground arith
  handle_sigint-misuse_iff log (suc (suc zero)) e h = ground arith
  handle_sigint-misuse_iff log (suc (suc (suc zero))) e h = ground arith
  handle_sigint-misuse_iff log (suc (suc (suc (suc zero)))) e h = ground arith
  handle_sigint-misuse_iff log (suc (suc (suc (suc (suc zero))))) e h = ground arith
  handle_sigint-misuse_iff log (suc (suc (suc (suc (suc (suc zero)))))) e h = ground arith
  handle_sigint-misuse_iff log (suc (suc (suc (suc (suc (suc (suc zero))))))) e h = ground arith
  handle_sigint-misuse_iff log (suc (suc (suc (suc (suc (suc (suc (suc zero)))))))) e h =
      ground arith
  handle_sigint-misuse_iff log (suc (suc (suc (suc (suc (suc (suc (suc (suc zero))))))))) e h =
      ground arith
  handle_sigint-misuse_iff log (suc (suc (suc (suc (suc (suc (suc (suc (suc (suc n)))))))))) e h =
      absurd (omega arith)
