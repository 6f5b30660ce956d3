-- ===== src/Samples/Services.antt =====
-- Concrete inputs for the services: a Jackson that knows one message, and the flow that it reads.
use kaf_katch.Prelude.{ℕ, ◌≡◌, refl, ◌∷◌, [], Option, none, some, if◌then◌else◌, List}
use kaf_katch.Prelude.Int.{ℤ, pos}
use kaf_katch.Sniffer.Stats.{PktStats}
use kaf_katch.Sniffer.Flow as SnifferFlow
use kaf_katch.Sniffer.Flow.{new_flow, ipproto_tcp, flow_update_stats}
use kaf_katch.Sniffer.Parser.Packet.{stats_of}
use kaf_katch.Core.Flow.{text_eq}
use kaf_katch.Core.Jackson.{
  Jackson, Json, str, int, real, object, print_onto, lookup_field, map_option,
}
use kaf_katch.Core.Aggregate.{Serdes, IsFaithful, Event}
use kaf_katch.Sniffer.Window.{open_flow}
use kaf_katch.Sniffer.Kafka.{flow_json}
use kaf_katch.Core.Parser.Message.{flow_value}
use kaf_katch.Core.Sent.{Sent}
use kaf_katch.Text.{codes}
use kaf_katch.Samples.{int_double, syn_header, upload, lan}

abbrev pub service_stats : PktStats
service_stats = stats_of syn_header upload ipproto_tcp 45764 443 2 3

-- The flow of that packet.
abbrev pub service_flow : SnifferFlow.Flow ℤ
service_flow = record (new_flow int_double service_stats.key) { packet_count = 1; byte_count = 3 }

abbrev child : Json → List ℕ → Option Json
child (object fs) name = lookup_field name fs
child (str t) name = none
child (int n) name = none
child (real t) name = none

abbrev text_of : Json → List ℕ
text_of (str t) = t
text_of (object fs) = []
text_of (int n) = []
text_of (real t) = []

abbrev int_of : Json → ℤ
int_of (int n) = pos n
int_of (object fs) = pos 0
int_of (str t) = pos 0
int_of (real t) = pos 0

pub same_option : (o : Option Json) → o ≡ map_option (λ j. j) o
same_option none = refl
same_option (some j) = refl

-- Nodes are values, doubles the integers, all of which are read as 0.
abbrev pub jackson_of : Json → Jackson ℤ
jackson_of known = record {
  Node = Json;
  node = λ j. j;
  read_tree = λ text. if text_eq text (print_onto known []) then some known else none;
  get = child;
  as_text = text_of;
  as_int = int_of;
  as_double = λ j. pos 0;
  parse_double = λ text. pos 0;
  get-node = λ fs k. same_option (lookup_field k fs);
  as_text-node = λ t. refl;
  as_int-node = λ n h. refl;
  as_double-node = λ t. refl;
}

abbrev pub lossless : Serdes ℤ ℤ
lossless = record { regroup = λ flow. some flow; reload = λ agg. some agg }

pub lossless-IsFaithful : IsFaithful lossless
lossless-IsFaithful = record { regrouped = λ flow. refl; reloaded = λ agg. refl }

-- A state store from which nothing comes back.
abbrev pub forgetful : Serdes ℤ ℤ
forgetful = record { regroup = λ flow. some flow; reload = λ agg. none }

abbrev pub same_time : ℤ → ℤ
same_time z = z

abbrev pub message : Event ℤ
message = record { json = flow_json int_double service_flow; received = pos 5; now = pos 6 }

abbrev pub garbage : Event ℤ
garbage = record { json = codes "{"; received = pos 7; now = pos 8 }

abbrev pub captured_flow : SnifferFlow.Flow ℤ
captured_flow =
    flow_update_stats int_double (open_flow int_double lan service_stats.key) service_stats

abbrev pub sent_once :
    Sent {T = ℤ} int_double (jackson_of (flow_value int_double captured_flow)) same_time lossless
sent_once = record { flow = captured_flow; received = pos 5; now = pos 6 }

-- The packet in two windows, whose messages are received in the other order.
abbrev pub two_windows : List (List PktStats)
two_windows = (service_stats ∷ []) ∷ (service_stats ∷ []) ∷ []
