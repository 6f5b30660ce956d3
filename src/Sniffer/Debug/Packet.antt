-- ===== src/Sniffer/Debug/Packet.antt =====
-- sniffer/src/parser.c: debug_print_stats, line by line. A line is the list of its characters, of
-- which the border has one in each place.
use kaf_katch.Prelude.{
  ℕ, ◌≤◌, ◌<◌, ◌≡◌, ◌==◌, if◌then◌else◌, List, [], ◌∷◌, ◌++◌, map, length, arith,
}
use kaf_katch.Prelude.Int.{ℤ, pos, negsuc, ◌≤ℤ◌}
use kaf_katch.Words.{ntohs, ntohs-lt}
use kaf_katch.Text.{
  codes, join, decimal, inet_ntop, pad_left, pad_right, signed, signed_06, hex_byte, length-join,
  length-pad_left, length-pad_right, length-signed_06, length-decimal_u16, length-inet_ntop,
}
use kaf_katch.Sniffer.Stats.{PktStats}
use kaf_katch.Sniffer.Flow.{ipproto_tcp}
use kaf_katch.Sniffer.Flow.Types.{KeyFits}
use kaf_katch.Sniffer.Flow.Summary.{IsSized}
use kaf_katch.Sniffer.Kafka.{proto_str}
use kaf_katch.Sniffer.Kafka.Json.{length-proto_str}
use kaf_katch.Sniffer.Debug.{flags_str, length-flags_str}

abbrev top : List ℕ
top = codes "┌────────────────────────────────────────────────────────────────┐"

abbrev middle : List ℕ
middle = codes "├────────────────────────────────────────────────────────────────┤"

abbrev bottom : List ℕ
bottom = codes "└────────────────────────────────────────────────────────────────┘"

length-signed : (z : ℤ) → pos 0 ≤ℤ z → z ≤ℤ pos 65535 → length (signed z) ≤ 5
unfolding signed
length-signed (pos n) low high = length-decimal_u16 n (omega arith)
length-signed (negsuc n) low high = absurd (omega arith)

-- `local_time` is localtime and strftime with the format `%H:%M:%S`.
module _ (local_time : ℤ → List ℕ) where
  unfoldable pub time_line : PktStats → List ℕ
  time_line stats = join (
      codes "│ "
      ∷ local_time stats.timestamp.tv_sec
      ∷ codes "."
      ∷ signed_06 stats.timestamp.tv_usec
      ∷ codes " | Proto: "
      ∷ pad_right 5 (proto_str stats.key.protocol)
      ∷ codes " | Payload: "
      ∷ pad_right 5 (signed stats.payload_size)
      ∷ codes " bytes          │"
      ∷ [])

  unfoldable pub ends_line : PktStats → List ℕ
  ends_line stats = join (
      codes "│ Flow: "
      ∷ pad_left 15 (inet_ntop stats.key.src_ip)
      ∷ codes ":"
      ∷ pad_right 5 (decimal (ntohs stats.key.src_port))
      ∷ codes " -> "
      ∷ pad_left 15 (inet_ntop stats.key.dst_ip)
      ∷ codes ":"
      ∷ pad_right 5 (decimal (ntohs stats.key.dst_port))
      ∷ codes "            │"
      ∷ [])

  unfoldable pub flags_line : PktStats → List ℕ
  flags_line stats = join (
      codes "│ TCP Flags: ["
      ∷ pad_right 24 (flags_str stats.tcp_flags)
      ∷ codes "] (0x"
      ∷ hex_byte stats.tcp_flags
      ∷ codes ")                    │"
      ∷ [])

  -- The lines after the empty one.
  unfoldable pub debug_print_stats : PktStats → List (List ℕ)
  debug_print_stats stats =
      top
      ∷ time_line stats
      ∷ middle
      ∷ ends_line stats
      ∷ ((if stats.key.protocol == ipproto_tcp then flags_line stats ∷ [] else []) ++ bottom ∷ [])

  length-time_line :
      (s : PktStats) (usec : ℕ)
      → length (local_time s.timestamp.tv_sec) ≡ 8
      → s.timestamp.tv_usec ≡ pos usec
      → usec < 1000000
      → length (signed s.payload_size) ≤ 5
      → length (time_line s) ≡ 66
  unfolding time_line
  length-time_line s usec clock e lt short = rw length-join (
      rw e (
        omega (
          arith,
          length-signed_06 usec lt,
          length-pad_right 5 (proto_str s.key.protocol) (length-proto_str s.key.protocol),
          length-pad_right 5 (signed s.payload_size) short,
        )))

  length-ends_line : (s : PktStats) → KeyFits s.key → length (ends_line s) ≡ 67
  unfolding ends_line
  length-ends_line s k = rw length-join (
      omega (
        arith,
        length-pad_left 15 (inet_ntop s.key.src_ip) (omega (arith, length-inet_ntop s.key.src_ip)),
        length-pad_left 15 (inet_ntop s.key.dst_ip) (omega (arith, length-inet_ntop s.key.dst_ip)),
        length-pad_right 5 (decimal (ntohs s.key.src_port))
            (length-decimal_u16 _ (ntohs-lt _ k.src_port)),
        length-pad_right 5 (decimal (ntohs s.key.dst_port))
            (length-decimal_u16 _ (ntohs-lt _ k.dst_port)),
      ))

  length-flags_line : (s : PktStats) → length (flags_line s) ≡ 67
  unfolding flags_line hex_byte
  length-flags_line s =
      rw length-join
        (omega (arith, length-pad_right 24 (flags_str s.tcp_flags) (length-flags_str s.tcp_flags)))

  -- The box of debug_print_stats is 66 characters wide, but the lines of the flow and of the flags
  -- are 67: for every packet whose key fits its types and is of TCP or UDP, with a payload of at
  -- most 65535 bytes, less than a million microseconds, and a local time of eight characters.
  pub debug_print_stats-widths :
      (s : PktStats) (usec : ℕ)
      → KeyFits s.key
      → IsSized s
      → length (local_time s.timestamp.tv_sec) ≡ 8
      → s.timestamp.tv_usec ≡ pos usec
      → usec < 1000000
      → map length (debug_print_stats s) ≡ (
          if s.key.protocol == ipproto_tcp
          then 66 ∷ 66 ∷ 66 ∷ 67 ∷ 67 ∷ 66 ∷ []
          else 66 ∷ 66 ∷ 66 ∷ 67 ∷ 66 ∷ [])
  unfolding debug_print_stats
  debug_print_stats-widths s usec k z clock e lt = ground (
    arith,
    length-time_line s usec clock e lt (length-signed s.payload_size z.0 z.1),
    length-ends_line s k,
    length-flags_line s,
  )
