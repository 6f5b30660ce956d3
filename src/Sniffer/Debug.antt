-- ===== src/Sniffer/Debug.antt =====
-- sniffer/src/flow.c and parser.c: the texts of the console output, get_dir_string, the cells of
-- debug_print_flow_table and the flags of debug_print_stats.
pub mod Packet
use kaf_katch.Prelude.{
  ℕ, ◌+◌, ◌≤◌, ◌≡◌, ◌==◌, Bool, if◌then◌else◌, List, [], ◌∷◌, ◌++◌, length, take_all, length-append,
  arith,
}
use kaf_katch.Words.{ntohs, ntohs-lt}
use kaf_katch.Text.{
  codes, join, decimal, inet_ntop, length-join, length-decimal_u16, length-inet_ntop,
}
use kaf_katch.Double.{Double}
use kaf_katch.Sniffer.Flow.{
  Flow, FlowDirection, outbound, inbound, lateral, unknown, ipproto_tcp, has_flag, th_syn, th_ack,
  th_fin, th_rst, th_push, th_urg,
}
use kaf_katch.Sniffer.Machine.{Prog, pure, ◌>>=◌, load}
use kaf_katch.Sniffer.UtHash.{Members}
use kaf_katch.Sniffer.Kafka.{proto_str, mean_iat, snprintf}
use kaf_katch.Sniffer.Flow.Types.{FitsTypes}

unfoldable pub get_dir_string : FlowDirection → List ℕ
get_dir_string outbound = codes "OUT"
get_dir_string inbound = codes "IN"
get_dir_string lateral = codes "LAT"
get_dir_string unknown = codes "UNK"

-- `strcat(flags_str, name)` if the flag is set.
abbrev append_if : Bool → (name text : List ℕ) → List ℕ
append_if b name text = if b then text ++ name else text

-- `flags_str` of debug_print_stats, from the empty text.
unfoldable pub flags_str : (tcp_flags : ℕ) → List ℕ
flags_str tcp_flags = append_if (has_flag tcp_flags th_urg) (codes "URG ") (
    append_if (has_flag tcp_flags th_push) (codes "PSH ") (
      append_if (has_flag tcp_flags th_rst) (codes "RST ") (
        append_if (has_flag tcp_flags th_fin) (codes "FIN ") (
          append_if (has_flag tcp_flags th_ack) (codes "ACK ")
            (append_if (has_flag tcp_flags th_syn) (codes "SYN ") [])))))

length-append_if :
    (b : Bool) (name text : List ℕ) → length (append_if b name text) ≤ length text + length name
length-append_if b name text = ground (arith, length-append text name)

-- Whatever the flags, strcat writes at most 24 bytes and the end of the text into the 32 bytes of
-- `flags_str`, and the text is no wider than its column.
pub length-flags_str : (tcp_flags : ℕ) → length (flags_str tcp_flags) ≤ 24
unfolding flags_str
length-flags_str tcp_flags =
    let text_1 = append_if (has_flag tcp_flags th_syn) (codes "SYN ") [] in
    let text_2 = append_if (has_flag tcp_flags th_ack) (codes "ACK ") text_1 in
    let text_3 = append_if (has_flag tcp_flags th_fin) (codes "FIN ") text_2 in
    let text_4 = append_if (has_flag tcp_flags th_rst) (codes "RST ") text_3 in
    let text_5 = append_if (has_flag tcp_flags th_push) (codes "PSH ") text_4 in
    omega (
      arith,
      length-append_if (has_flag tcp_flags th_syn) (codes "SYN ") [],
      length-append_if (has_flag tcp_flags th_ack) (codes "ACK ") text_1,
      length-append_if (has_flag tcp_flags th_fin) (codes "FIN ") text_2,
      length-append_if (has_flag tcp_flags th_rst) (codes "RST ") text_3,
      length-append_if (has_flag tcp_flags th_push) (codes "PSH ") text_4,
      length-append_if (has_flag tcp_flags th_urg) (codes "URG ") text_5,
    )

module _ (F : Double) where
  -- The text of `flow_str` before the limit of its buffer.
  unfoldable pub flow_ends : Flow F.Carrier → List ℕ
  flow_ends flow = join (
      inet_ntop flow.key.src_ip
      ∷ codes ":"
      ∷ decimal (ntohs flow.key.src_port)
      ∷ codes " -> "
      ∷ inet_ntop flow.key.dst_ip
      ∷ codes ":"
      ∷ decimal (ntohs flow.key.dst_port)
      ∷ [])

  unfoldable pub flow_str : Flow F.Carrier → List ℕ
  flow_str flow = snprintf 64 (flow_ends flow)

  -- The column of a flow is wide enough: for ports of 16 bits, `flow_str` is the whole text, of at
  -- most 46 bytes.
  flow_str-whole :
      (f : Flow F.Carrier) → FitsTypes f → (flow_str f ≡ flow_ends f) × (length (flow_ends f) ≤ 46)
  unfolding flow_str flow_ends
  flow_str-whole f t =
      let narrow : length (flow_ends f) ≤ 46 = rw length-join (
        omega (
          arith,
          length-inet_ntop f.key.src_ip,
          length-inet_ntop f.key.dst_ip,
          length-decimal_u16 (ntohs f.key.src_port) (ntohs-lt _ t.src_port),
          length-decimal_u16 (ntohs f.key.dst_port) (ntohs-lt _ t.dst_port),
        )) in
      (take_all 63 (flow_ends f) (omega arith), narrow)

  unfoldable pub min_max_str : Flow F.Carrier → List ℕ
  min_max_str flow =
      snprintf 32
        (join (decimal flow.min_packet_size ∷ codes "/" ∷ decimal flow.max_packet_size ∷ []))

  unfoldable pub iat_str : Flow F.Carrier → List ℕ
  iat_str flow = snprintf 32 (join (F.print_1f (mean_iat F flow) ∷ codes " us" ∷ []))

  unfoldable pub tcp_str : Flow F.Carrier → List ℕ
  tcp_str flow =
      if flow.key.protocol == ipproto_tcp
      then snprintf 32 (
          join (
            decimal flow.tcp_syn_count
            ∷ codes "/"
            ∷ decimal flow.tcp_ack_count
            ∷ codes "/"
            ∷ decimal flow.tcp_fin_count
            ∷ codes "/"
            ∷ decimal flow.tcp_rst_count
            ∷ []))
      else codes "-"

  -- The cells of the line of a flow.
  unfoldable pub table_row : Flow F.Carrier → List (List ℕ)
  table_row flow =
      flow_str flow
      ∷ get_dir_string flow.direction
      ∷ proto_str flow.key.protocol
      ∷ decimal flow.packet_count
      ∷ decimal flow.byte_count
      ∷ min_max_str flow
      ∷ iat_str flow
      ∷ tcp_str flow
      ∷ []

  -- The lines of debug_print_flow_table below its title, for the nodes of the table.
  unfoldable pub table_rows : Members → Prog F.Carrier (List (List (List ℕ)))
  unfolding load
  table_rows [] = pure []
  table_rows ((k, p) ∷ rest) = do
    flow ← load p
    rows ← table_rows rest
    pure (table_row flow ∷ rows)

  -- The texts of debug_print_flow_table line by line, each a list of cells.
  unfoldable pub debug_print_flow_table : Members → Prog F.Carrier (List (List (List ℕ)))
  unfolding table_rows
  debug_print_flow_table table = do
    rows ← table_rows table
    let num_flows = length table
    let title =
        snprintf 128 (
          codes "DUMP DA TABELA DE FLUXOS (UTHASH) - Total de Fluxos Ativos: " ++ decimal num_flows)
    let names =
        codes "Fluxo (Origem -> Destino)"
        ∷ codes "Dir"
        ∷ codes "Proto"
        ∷ codes "Pkts"
        ∷ codes "Bytes"
        ∷ codes "Min/Max"
        ∷ codes "Mean IAT"
        ∷ codes "TCP (S/A/F/R)"
        ∷ []
    let empty = if num_flows == 0 then (codes "TABELA VAZIA" ∷ []) ∷ [] else []
    pure ((title ∷ []) ∷ names ∷ empty ++ rows)
