-- ===== src/Sniffer/Stats.antt =====
-- sniffer/src/stats.h: the key of a flow and the data of one packet.
use kaf_katch.Prelude.{ℕ, ◌≡◌, ◌↔◌, Bool, true, ◌&&◌, ◌==◌, arith}
use kaf_katch.Prelude.Int.{ℤ}

-- `flow_key_t`: addresses and ports as they lie in the packet (network byte order).
pub record FlowKey : Type 0 where
  pub src_ip : ℕ
  pub dst_ip : ℕ
  pub src_port : ℕ
  pub dst_port : ℕ
  pub protocol : ℕ

-- `struct timeval` of <sys/time.h>.
pub record Timeval : Type 0 where
  pub tv_sec : ℤ
  pub tv_usec : ℤ

-- `pkt_stats_t`; `payload_size` is an `int`.
pub record PktStats : Type 0 where
  pub key : FlowKey
  pub payload_size : ℤ
  pub timestamp : Timeval
  pub tcp_flags : ℕ

-- Two keys have the same fields. (The padding of the struct is zero in both.)
unfoldable pub key_eq : FlowKey → FlowKey → Bool
key_eq a b =
    a.src_ip == b.src_ip
    && a.dst_ip == b.dst_ip
    && a.src_port == b.src_port
    && a.dst_port == b.dst_port
    && a.protocol == b.protocol

pub key_eq_iff : (a b : FlowKey) → (key_eq a b ≡ true) ↔ (a ≡ b)
unfolding key_eq
key_eq_iff a b = ground arith

pub key_eq_comm : (a b : FlowKey) → key_eq a b ≡ key_eq b a
unfolding key_eq
key_eq_comm a b = ground arith
