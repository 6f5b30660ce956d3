-- ===== src/Core/Parser.antt =====
-- kafkatch-core/src/main/java/br/ufes/edu/serdes/FlowParser.java: from the message of a flow, as the
-- sniffer sends it, to a Flow.
pub mod Message
use kaf_katch.Prelude.{ℕ, Option, none, some, List, [], ◌∷◌}
use kaf_katch.Prelude.Int.{ℤ}
use kaf_katch.Text.{codes}
use kaf_katch.Core.Flow.{Flow, make_key, protocol_value_of, direction_value_of}
use kaf_katch.Core.Jackson.{Jackson}

-- An exception is none. App catches every exception of readJson alike.
infixl 5 ◌>>=◌
abbrev pub ◌>>=◌ {ℓ κ} : {A : Type ℓ} {B : Type κ} → Option A → (A → Option B) → Option B
none >>= k = none
some a >>= k = k a

-- `local_time` is LocalDateTime.ofInstant of the milliseconds.
module _ {T D : Type 0} (J : Jackson D) (local_time : ℤ → T) where
  open J use {Node, read_tree, get, as_text, as_int, as_double}

  -- `node.get(name).asText()` and `node.get(name).asInt()`, which throw where there is no field.
  abbrev text_at : Node → List ℕ → Option (List ℕ)
  text_at root name = do n ← get root name; some (as_text n)

  abbrev int_at : Node → List ℕ → Option ℤ
  int_at root name = do n ← get root name; some (as_int n)

  unfoldable pub read_json : (json : List ℕ) (kafka_timestamp : ℤ) → Option (Flow T D)
  read_json json kafka_timestamp = do
    root ← read_tree json
    src_ip ← text_at root (codes "src_ip")
    dst_ip ← text_at root (codes "dst_ip")
    src_port ← int_at root (codes "src_port")
    dst_port ← int_at root (codes "dst_port")
    protocol_text ← text_at root (codes "protocol")
    protocol ← protocol_value_of protocol_text
    dir_text ← text_at root (codes "dir")
    dir ← direction_value_of dir_text
    packets ← int_at root (codes "packets")
    bytes ← int_at root (codes "bytes")
    min_size ← int_at root (codes "min_size")
    max_size ← int_at root (codes "max_size")
    mean ← get root (codes "mean_iat_us")
    let mean_iat_us = as_double mean
    tcp ← get root (codes "tcp")
    tcp_syn_count ← int_at tcp (codes "syn")
    tcp_fin_count ← int_at tcp (codes "fin")
    tcp_rst_count ← int_at tcp (codes "rst")
    tcp_ack_count ← int_at tcp (codes "ack")
    some (record {
      flow_key = make_key src_ip src_port dst_ip dst_port protocol;
      src_ip = src_ip;
      dst_ip = dst_ip;
      src_port = src_port;
      dst_port = dst_port;
      protocol = protocol;
      dir = dir;
      packet_count = packets;
      byte_count = bytes;
      min_packet_size = min_size;
      max_packet_size = max_size;
      timestamp = local_time kafka_timestamp;
      mean_iat_us = mean_iat_us;
      tcp_syn_count = tcp_syn_count;
      tcp_fin_count = tcp_fin_count;
      tcp_rst_count = tcp_rst_count;
      tcp_ack_count = tcp_ack_count;
    })
