-- ===== src/Core/Aggregate.antt =====
-- kafkatch-core/src/main/java/br/ufes/edu: AggregatedFlow of domain, and the part of App that makes
-- the aggregate of a window from the messages in it. Which messages a window holds is up to Kafka
-- Streams; a list of them has the newest first.
pub mod Totals
pub mod Keys
pub mod Distinct
pub mod Average
pub mod Window
pub mod Faithful
use kaf_katch.Prelude.{◌≡◌, ℕ, Bool, true, false, Option, none, some, if◌then◌else◌, List, [], ◌∷◌}
use kaf_katch.Prelude.Int.{ℤ, pos, ◌+ℤ◌}
use kaf_katch.Text.{join, signed}
use kaf_katch.Long.{to_int, to_long}
use kaf_katch.Core.Flow.{
  Flow, FlowDirection, inbound, outbound, lateral, unknown, protocol_name, text_eq,
}
use kaf_katch.Core.Jackson.{Jackson}
use kaf_katch.Core.Parser.{read_json}

-- `timestamp_end` is null until the first flow.
pub record AggregatedFlow (T : Type 0) : Type 0 where
  pub timestamp_start : T
  pub timestamp_end : Option T
  pub bytes_inbound : ℤ
  pub bytes_outbound : ℤ
  pub packets_inbound : ℤ
  pub packets_outbound : ℤ
  pub unique_flow_count : ℤ
  pub flow_keys : List (List ℕ)
  pub tcp_syn_total : ℤ
  pub tcp_ack_total : ℤ
  pub tcp_fin_total : ℤ
  pub tcp_rst_total : ℤ

abbrev pub contains : List (List ℕ) → List ℕ → Bool
contains [] key = false
contains (k ∷ keys) key = if text_eq k key then true else contains keys key

unfoldable pub new_aggregate : {T : Type 0} → T → AggregatedFlow T
new_aggregate start = record {
  timestamp_start = start;
  timestamp_end = none;
  bytes_inbound = pos 0;
  bytes_outbound = pos 0;
  packets_inbound = pos 0;
  packets_outbound = pos 0;
  unique_flow_count = pos 0;
  flow_keys = [];
  tcp_syn_total = pos 0;
  tcp_ack_total = pos 0;
  tcp_fin_total = pos 0;
  tcp_rst_total = pos 0;
}

-- `flowKeys.add(key)` and the count.
abbrev pub add_key : {T : Type 0} → List ℕ → AggregatedFlow T → AggregatedFlow T
add_key key agg = if contains agg.flow_keys key then agg else record agg {
  flow_keys = key ∷ agg.flow_keys;
  unique_flow_count = to_int (agg.unique_flow_count +ℤ pos 1);
}

module _ {T D : Type 0} where
  -- The key of addFlow, the fields one after the other.
  unfoldable pub unique_key : Flow T D → List ℕ
  unique_key flow = join (
      flow.src_ip
      ∷ signed flow.src_port
      ∷ flow.dst_ip
      ∷ signed flow.dst_port
      ∷ protocol_name flow.protocol
      ∷ [])

  -- The volume by direction.
  abbrev pub add_volume : FlowDirection → Flow T D → AggregatedFlow T → AggregatedFlow T
  add_volume inbound flow agg = record agg {
    bytes_inbound = to_long (agg.bytes_inbound +ℤ flow.byte_count);
    packets_inbound = to_long (agg.packets_inbound +ℤ flow.packet_count);
  }
  add_volume outbound flow agg = record agg {
    bytes_outbound = to_long (agg.bytes_outbound +ℤ flow.byte_count);
    packets_outbound = to_long (agg.packets_outbound +ℤ flow.packet_count);
  }
  add_volume lateral flow agg = agg
  add_volume unknown flow agg = agg

  abbrev pub add_flags : Flow T D → AggregatedFlow T → AggregatedFlow T
  add_flags flow agg = record agg {
    tcp_syn_total = to_long (agg.tcp_syn_total +ℤ flow.tcp_syn_count);
    tcp_ack_total = to_long (agg.tcp_ack_total +ℤ flow.tcp_ack_count);
    tcp_fin_total = to_long (agg.tcp_fin_total +ℤ flow.tcp_fin_count);
    tcp_rst_total = to_long (agg.tcp_rst_total +ℤ flow.tcp_rst_count);
  }

  unfoldable pub add_flow : (now : T) → Flow T D → AggregatedFlow T → AggregatedFlow T
  unfolding unique_key
  add_flow now flow agg =
      record (add_key (unique_key flow) (add_flags flow (add_volume flow.dir flow agg))) {
        timestamp_end = some now;
      }

-- A message, when it is received, and the time when it is added.
pub record Event (T : Type 0) : Type 0 where
  pub json : List ℕ
  pub received : ℤ
  pub now : T

-- What serialization and back make of a flow, in the topic behind groupBy, and of an aggregate, in
-- the state store between two messages: none for null.
pub record Serdes (T D : Type 0) : Type 0 where
  pub regroup : Flow T D → Option (Flow T D)
  pub reload : AggregatedFlow T → Option (AggregatedFlow T)

-- Nothing is lost.
pub record IsFaithful {T D : Type 0} (serdes : Serdes T D) : Type 0 where
  pub regrouped : (flow : Flow T D) → serdes.regroup flow ≡ some flow
  pub reloaded : (agg : AggregatedFlow T) → serdes.reload agg ≡ some agg

module _ {T D : Type 0} (J : Jackson D) (local_time : ℤ → T) (serdes : Serdes T D) where
  -- `aggregate()` for the next flow: the stored aggregate, or a new one.
  abbrev pub add_stored : (now : T) → Flow T D → Option (AggregatedFlow T) → AggregatedFlow T
  add_stored now flow none = add_flow now flow (new_aggregate now)
  add_stored now flow (some agg) = add_flow now flow agg

  abbrev pub stored : Option (AggregatedFlow T) → Option (AggregatedFlow T)
  stored none = none
  stored (some agg) = serdes.reload agg

  -- A flow that comes back as null is left out.
  abbrev pub add_grouped :
      (now : T) → Option (Flow T D) → Option (AggregatedFlow T) → Option (AggregatedFlow T)
  add_grouped now none state = state
  add_grouped now (some flow) state = some (add_stored now flow (stored state))

  -- A message that cannot be read is left out.
  abbrev pub add_message :
      (now : T) → Option (Flow T D) → Option (AggregatedFlow T) → Option (AggregatedFlow T)
  add_message now none state = state
  add_message now (some flow) state = add_grouped now (serdes.regroup flow) state

  -- The aggregate of a window, none if there is no flow in it.
  unfoldable pub aggregate : List (Event T) → Option (AggregatedFlow T)
  aggregate [] = none
  aggregate (e ∷ events) =
      add_message e.now (read_json J local_time e.json e.received) (aggregate events)
