-- ===== src/Sniffer/Startup.antt =====
-- sniffer/src/main.c and kafka_client.c: main, setup_pcap, kafka_client_init and
-- kafka_client_cleanup, as the calls of libpcap, librdkafka and pthread that they make. `Host` says
-- what the calls answer; the threads that run in between are in `Sniffer.System`.
pub mod Release
use kaf_katch.Prelude.{ℕ, Bool, true, false, not, ◌==◌, if◌then◌else◌, List, [], ◌∷◌}
use kaf_katch.Prelude.Int.{ℤ, pos, negsuc, ltb_ℤ, is_zero}
use kaf_katch.Text.{codes}
use kaf_katch.Sniffer.Context.{exit_failure}

pub data Action : Type 0 where
  conf_new conf_set_dr_msg_cb conf_destroy producer_new producer_destroy : Action
  conf_set : (name value : List ℕ) → Action
  producer_flush : (timeout_ms : ℕ) → Action
  wait_destroyed : (timeout_ms : ℕ) → Action
  mutex_init mutex_destroy thread_create stop_running thread_join : Action
  pcap_findalldevs pcap_freealldevs pcap_lookupnet pcap_init pcap_create pcap_activate : Action
  pcap_datalink pcap_loop pcap_breakloop pcap_stats pcap_close set_sigint : Action
  set_snaplen set_promisc set_immediate_mode set_timeout set_buffer_size : ℕ → Action

-- The value that a call returns, for a pointer 0 if it is NULL. No call is made twice.
abbrev pub Host : Type 0
Host = Action → ℤ

-- What a function returns, and the calls so far, newest first.
abbrev pub Trace : Type 0 → Type 0
Trace A = List Action → A × List Action

abbrev pub pure : {A : Type 0} → A → Trace A
pure a log = (a, log)

infixl 5 ◌>>=◌
abbrev pub ◌>>=◌ : {A B : Type 0} → Trace A → (A → Trace B) → Trace B
m >>= k = λ log. k (m log).0 (m log).1

abbrev pub is_dlt_en10mb : ℤ → Bool
is_dlt_en10mb (pos n) = n == 1
is_dlt_en10mb (negsuc n) = false

-- -1, the `PCAP_ERROR` of libpcap.
abbrev pub is_pcap_error : ℤ → Bool
is_pcap_error (pos n) = false
is_pcap_error (negsuc n) = n == 0

abbrev pub exit_success : ℕ
exit_success = 0

abbrev pub capture_settings : List Action
capture_settings =
    set_snaplen 128
    ∷ set_promisc 1
    ∷ set_immediate_mode 0
    ∷ set_timeout 10
    ∷ set_buffer_size 32000000
    ∷ []

module _ (host : Host) where
  abbrev pub ask : Action → Trace ℤ
  ask a log = (host a, a ∷ log)

  -- Whether the handle is not NULL.
  unfoldable pub kafka_client_init : (brokers : List ℕ) → Trace Bool
  kafka_client_init brokers = do
    _ ← ask conf_new
    res ← ask (conf_set (codes "bootstrap.servers") brokers)
    if not (is_zero res) then (do _ ← ask conf_destroy; pure false) else (do
      _ ← ask (conf_set (codes "queue.buffering.max.ms") (codes "10"))
      _ ← ask (conf_set (codes "acks") (codes "0"))
      _ ← ask conf_set_dr_msg_cb
      rk ← ask producer_new
      if is_zero rk then (do _ ← ask conf_destroy; pure false) else pure true)

  -- For a handle that is not NULL.
  unfoldable pub kafka_client_cleanup : Trace (Unit {0})
  kafka_client_cleanup = do _ ← ask (producer_flush 5000); _ ← ask producer_destroy; pure tt

  -- The settings of setup_pcap, up to the first that fails.
  unfoldable pub set_all : List Action → Trace Bool
  set_all [] = pure true
  set_all (a ∷ rest) = do err ← ask a; if is_zero err then set_all rest else pure false

  -- setup_pcap with the created handle; false where it goes to `err_close`.
  unfoldable pub open_capture : Trace Bool
  open_capture = do
    set ← set_all capture_settings
    if not set then pure false else (do
      err ← ask pcap_activate
      if ltb_ℤ err (pos 0)
          then pure false
          else (do link ← ask pcap_datalink; pure (is_dlt_en10mb link)))

  -- Whether the handle is not NULL.
  unfoldable pub setup_pcap : Trace Bool
  setup_pcap = do
    handle ← ask pcap_create
    if is_zero handle then pure false else (do
      opened ← open_capture
      if opened then pure true else (do _ ← ask pcap_close; pure false))

  unfoldable pub list_devs : Trace (Unit {0})
  list_devs = do
    res ← ask pcap_findalldevs
    if is_pcap_error res then pure tt else (do _ ← ask pcap_freealldevs; pure tt)

  -- main from the label `err_kafka`, and from `err_thread`.
  unfoldable pub err_kafka : Trace ℕ
  err_kafka = do _ ← ask mutex_destroy; _ ← kafka_client_cleanup; pure exit_failure

  unfoldable pub err_thread : Trace ℕ
  err_thread = do _ ← ask stop_running; _ ← ask thread_join; err_kafka

  -- main with the capture open.
  unfoldable pub capture_frames : Trace ℕ
  capture_frames = do
    _ ← ask set_sigint
    _ ← ask pcap_loop
    _ ← ask pcap_stats
    _ ← ask stop_running
    _ ← ask thread_join
    _ ← ask mutex_destroy
    _ ← ask pcap_close
    _ ← kafka_client_cleanup
    _ ← ask (wait_destroyed 5000)
    pure exit_success

  -- `global` says that `global_pcap_handle` is not NULL: main sets it before it installs the handler,
  -- and nothing resets it.
  unfoldable pub handle_sigint : (global : Bool) → Trace (Unit {0})
  handle_sigint global = if global then (do _ ← ask pcap_breakloop; pure tt) else pure tt

  -- main with the thread running.
  unfoldable pub start_capture : Trace ℕ
  start_capture = do
    res ← ask pcap_init
    if is_pcap_error res
        then err_thread
        else (do opened ← setup_pcap; if opened then capture_frames else err_thread)

  -- `named` says that an interface is given.
  unfoldable pub main : (named : Bool) → Trace ℕ
  main named = if not named then (do _ ← list_devs; pure exit_failure) else (do
    _ ← ask pcap_lookupnet
    rk ← kafka_client_init (codes "localhost:9092,localhost:9094,localhost:9096")
    if not rk then pure exit_failure else (do
      _ ← ask mutex_init
      err ← ask thread_create
      if is_zero err then start_capture else err_kafka))
