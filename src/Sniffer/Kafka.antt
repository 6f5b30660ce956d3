-- ===== src/Sniffer/Kafka.antt =====
-- sniffer/src/kafka_client.c: the flows of a finished window as JSON messages. librdkafka is called
-- through `Call`s; what it answers to a message is not looked at by the code.
pub mod Json
pub mod Send
use kaf_katch.Prelude.{
  ℕ, ◌-◌, Bool, true, false, not, ◌||◌, ◌==◌, ltb, if◌then◌else◌, Option, none, some, List, [], ◌∷◌,
  ◌++◌, take,
}
use kaf_katch.Prelude.Int.{pos}
use kaf_katch.Words.{ntohs}
use kaf_katch.Text.{codes, join, decimal, inet_ntop}
use kaf_katch.Double.{Double}
use kaf_katch.Sniffer.Stats.{FlowKey}
use kaf_katch.Sniffer.Flow.{
  Flow, FlowDirection, outbound, inbound, lateral, unknown, ipproto_tcp, ipproto_udp,
}
use kaf_katch.Sniffer.Machine.{
  Call, produce, poll, flush, Prog, pure, ◌>>=◌, ◌>>◌, load, free, call,
}
use kaf_katch.Sniffer.UtHash.{UtHash, Members}
use kaf_katch.Sniffer.Context.{touch}

unfoldable pub dir_to_str : FlowDirection → List ℕ
dir_to_str outbound = codes "OUTBOUND"
dir_to_str inbound = codes "INBOUND"
dir_to_str lateral = codes "LATERAL"
dir_to_str unknown = codes "UNKNOWN"

unfoldable pub proto_str : ℕ → List ℕ
proto_str protocol =
    if protocol == ipproto_tcp
    then codes "TCP"
    else if protocol == ipproto_udp
    then codes "UDP"
    else codes "OTHER"

-- snprintf into a buffer of `size` bytes keeps one for the end of the text.
abbrev pub snprintf : (size : ℕ) → List ℕ → List ℕ
snprintf size text = take (size - 1) text

module _ (F : Double) where
  unfoldable pub mean_iat : Flow F.Carrier → F.Carrier
  mean_iat flow =
      if ltb 1 flow.packet_count
      then F.div flow.total_iat_usec (F.of_int (pos (flow.packet_count - 1)))
      else F.of_int (pos 0)

  -- The text before the size limit of the buffer.
  unfoldable pub flow_json : Flow F.Carrier → List ℕ
  flow_json flow = join (
      codes "{\"src_ip\":\""
      ∷ inet_ntop flow.key.src_ip
      ∷ codes "\",\"src_port\":"
      ∷ decimal (ntohs flow.key.src_port)
      ∷ codes ",\"dst_ip\":\""
      ∷ inet_ntop flow.key.dst_ip
      ∷ codes "\",\"dst_port\":"
      ∷ decimal (ntohs flow.key.dst_port)
      ∷ codes ",\"protocol\":\""
      ∷ proto_str flow.key.protocol
      ∷ codes "\",\"dir\":\""
      ∷ dir_to_str flow.direction
      ∷ codes "\",\"packets\":"
      ∷ decimal flow.packet_count
      ∷ codes ",\"bytes\":"
      ∷ decimal flow.byte_count
      ∷ codes ",\"min_size\":"
      ∷ decimal flow.min_packet_size
      ∷ codes ",\"max_size\":"
      ∷ decimal flow.max_packet_size
      ∷ codes ",\"mean_iat_us\":"
      ∷ F.print_1f (mean_iat flow)
      ∷ codes ",\"tcp\":{\"syn\":"
      ∷ decimal flow.tcp_syn_count
      ∷ codes ",\"ack\":"
      ∷ decimal flow.tcp_ack_count
      ∷ codes ",\"fin\":"
      ∷ decimal flow.tcp_fin_count
      ∷ codes ",\"rst\":"
      ∷ decimal flow.tcp_rst_count
      ∷ codes "}}"
      ∷ [])

  -- `json_payload`
  unfoldable pub json_payload : Flow F.Carrier → List ℕ
  json_payload flow = snprintf 1024 (flow_json flow)

module _ (F : Double) (U : UtHash) where
  open U use {Table, members, is_null, del}

  -- One round of the loop of kafka_client_send_flows, for the node at `p`.
  unfoldable pub send_one : (topic : List ℕ) → Table → ℕ → Prog F.Carrier Table
  unfolding load free call
  send_one topic table p = do
    flow ← load p
    call (produce topic (json_payload F flow))
    touch F (members table)
    free p
    pure (del p table)

  -- HASH_ITER reads the next node before the body deletes the current one.
  unfoldable pub send_loop : (topic : List ℕ) → Members → Table → Prog F.Carrier Table
  unfolding send_one
  send_loop topic [] table = pure table
  send_loop topic ((k, p) ∷ rest) table = do
    table' ← send_one topic table p
    send_loop topic rest table'

  -- `producer` says that the handle is not NULL; `flow_table_ptr` is none for NULL.
  unfoldable pub kafka_client_send_flows :
      (producer : Bool) (topic : List ℕ) → Option Table → Prog F.Carrier (Option Table)
  unfolding send_loop
  kafka_client_send_flows producer topic none = pure none
  kafka_client_send_flows producer topic (some table) =
      if is_null table || not producer then pure (some table) else (do
        table' ← send_loop topic (members table) table
        call (poll 0)
        call (flush 500)
        pure (some table'))
