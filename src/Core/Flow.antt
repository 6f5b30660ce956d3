-- ===== src/Core/Flow.antt =====
-- kafkatch-core/src/main/java/br/ufes/edu/domain: Flow, FlowProtocol and FlowDirection. A String is
-- the list of its characters, an `int` an integer.
use kaf_katch.Prelude.{
  ◌≡◌, ◌↔◌, arith, ℕ, Bool, true, false, ◌&&◌, ◌==◌, Option, none, some, if◌then◌else◌, List, [],
  ◌∷◌,
}
use kaf_katch.Prelude.Int.{ℤ}
use kaf_katch.Text.{codes, join, signed}

-- `String.equals`
abbrev pub text_eq : List ℕ → List ℕ → Bool
text_eq [] [] = true
text_eq [] (d ∷ ds) = false
text_eq (c ∷ cs) [] = false
text_eq (c ∷ cs) (d ∷ ds) = c == d && text_eq cs ds

pub text_eq_iff : (s t : List ℕ) → (text_eq s t ≡ true) ↔ (s ≡ t)
text_eq_iff [] [] = ground arith
text_eq_iff [] (d ∷ ds) = ground arith
text_eq_iff (c ∷ cs) [] = ground arith
text_eq_iff (c ∷ cs) (d ∷ ds) = ground (arith, text_eq_iff cs ds)

pub data FlowProtocol : Type 0 where
  tcp udp : FlowProtocol

pub data FlowDirection : Type 0 where
  inbound outbound lateral unknown : FlowDirection

unfoldable pub protocol_name : FlowProtocol → List ℕ
protocol_name tcp = codes "TCP"
protocol_name udp = codes "UDP"

-- `FlowProtocol.valueOf` and `FlowDirection.valueOf`, which throw at any other name.
unfoldable pub protocol_value_of : List ℕ → Option FlowProtocol
protocol_value_of name =
    if text_eq name (codes "TCP")
    then some tcp
    else if text_eq name (codes "UDP")
    then some udp
    else none

unfoldable pub direction_value_of : List ℕ → Option FlowDirection
direction_value_of name =
    if text_eq name (codes "INBOUND")
    then some inbound
    else if text_eq name (codes "OUTBOUND")
    then some outbound
    else if text_eq name (codes "LATERAL")
    then some lateral
    else if text_eq name (codes "UNKNOWN")
    then some unknown
    else none

-- `T` is LocalDateTime, and `D` the type of doubles.
pub record Flow (T D : Type 0) : Type 0 where
  pub flow_key : List ℕ
  pub src_ip : List ℕ
  pub dst_ip : List ℕ
  pub src_port : ℤ
  pub dst_port : ℤ
  pub protocol : FlowProtocol
  pub dir : FlowDirection
  pub packet_count : ℤ
  pub byte_count : ℤ
  pub min_packet_size : ℤ
  pub max_packet_size : ℤ
  pub timestamp : T
  pub mean_iat_us : D
  pub tcp_syn_count : ℤ
  pub tcp_fin_count : ℤ
  pub tcp_rst_count : ℤ
  pub tcp_ack_count : ℤ

-- The key that the constructor for the parser makes.
unfoldable pub make_key :
    (src_ip : List ℕ) (src_port : ℤ) (dst_ip : List ℕ) (dst_port : ℤ) → FlowProtocol → List ℕ
make_key src_ip src_port dst_ip dst_port protocol = join (
    src_ip
    ∷ codes ":"
    ∷ signed src_port
    ∷ codes "-"
    ∷ dst_ip
    ∷ codes ":"
    ∷ signed dst_port
    ∷ codes "-"
    ∷ protocol_name protocol
    ∷ [])
