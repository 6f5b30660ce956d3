-- ===== src/Samples/Toasts.antt =====
-- Concrete inputs for the toasts: bytes of warnings, a consumer over a list, and a run of four
-- windows.
use kaf_katch.Prelude.{
  ◌∙◌, ℕ, zero, suc, subst, ◌≡◌, refl, ap, Option, none, some, List, [], ◌∷◌, ◌++◌, length, arith,
  All,
}
use kaf_katch.Words.{ntohs}
use kaf_katch.Sniffer.Stats.{key_eq}
use kaf_katch.Sniffer.Flow.{infer_direction, new_flow, flow_update_stats}
use kaf_katch.Sniffer.UtHash.{lookup}
use kaf_katch.Sniffer.Context.{touch, flow_process_packet, table_at, set_table}
use kaf_katch.Sniffer.Parser.{
  load16, load32, link_layer, tcp_layer, udp_layer, transport_layer, network_layer, parse_frame,
  pkt_handler,
}
use kaf_katch.Sniffer.Kafka.{send_one}
use kaf_katch.Sniffer.System.{
  exchange_tables, here, next, captures, wakes, exchanges, sends, finishes,
}
use kaf_katch.Samples.{syn_header, syn_frame, Ran}
use kaf_katch.Notification.Detector.{Warning}
use kaf_katch.Core.Serializers.{Value, ObjectMapper, serialize, deserialize}
use kaf_katch.Viewer.Polls.{AreRead, Consumer}
use kaf_katch.Viewer.Sent.{AreSent, ReadsBack, KeepsUp}

-- Four seconds with one packet each, each exported before the next one comes.
unfoldable pub four_windows : Ran
unfolding pkt_handler parse_frame link_layer network_layer transport_layer tcp_layer udp_layer
    load16 load32 ntohs flow_process_packet touch lookup key_eq table_at set_table new_flow
    infer_direction flow_update_stats exchange_tables send_one
four_windows = record {
  last = _;
  reach =
      next
        (next
          (next
            (next
              (next
                (next
                  (next
                    (next
                      (next
                        (next
                          (next
                            (next
                              (next
                                (next
                                  (next
                                    (next
                                      (next
                                        (next
                                          (next
                                            (next here (
                                              captures syn_header syn_frame refl (omega arith)
                                                refl))
                                            (wakes refl refl))
                                          (exchanges refl refl refl))
                                        (sends refl refl))
                                      (finishes refl))
                                    (captures syn_header syn_frame refl (omega arith) refl))
                                  (wakes refl refl))
                                (exchanges refl refl refl))
                              (sends refl refl))
                            (finishes refl))
                          (captures syn_header syn_frame refl (omega arith) refl))
                        (wakes refl refl))
                      (exchanges refl refl refl))
                    (sends refl refl))
                  (finishes refl))
                (captures syn_header syn_frame refl (omega arith) refl))
              (wakes refl refl))
            (exchanges refl refl refl))
          (sends refl refl))
        (finishes refl);
}

-- A warning as the length of its severity, this, and its text.
abbrev bytes_of : Warning → List ℕ
bytes_of w = length w.severidade ∷ w.severidade ++ w.descricao

abbrev take_first : ℕ → List ℕ → List ℕ
take_first zero xs = []
take_first (suc n) [] = []
take_first (suc n) (x ∷ xs) = x ∷ take_first n xs

abbrev drop_first : ℕ → List ℕ → List ℕ
drop_first zero xs = xs
drop_first (suc n) [] = []
drop_first (suc n) (x ∷ xs) = drop_first n xs

abbrev warning_of : List ℕ → Option (Option Warning)
warning_of [] = none
warning_of (n ∷ bytes) =
    some (some (record { severidade = take_first n bytes; descricao = drop_first n bytes }))

take_first-append : (xs ys : List ℕ) → take_first (length xs) (xs ++ ys) ≡ xs
take_first-append [] ys = refl
take_first-append (x ∷ xs) ys = ap (λ l. x ∷ l) (take_first-append xs ys)

drop_first-append : (xs ys : List ℕ) → drop_first (length xs) (xs ++ ys) ≡ ys
drop_first-append [] ys = refl
drop_first-append (x ∷ xs) ys = drop_first-append xs ys

abbrev pub plain_mapper : ObjectMapper Warning
plain_mapper = record { write_value = λ w. some (bytes_of w); read_value = warning_of }

abbrev pub values_of : List Warning → List Value
values_of [] = []
values_of (w ∷ ws) = some (bytes_of w) ∷ values_of ws

pub values_of-AreSent :
    (lower : List ℕ → List ℕ) (ws : List Warning) → AreSent lower plain_mapper ws (values_of ws)
unfolding serialize
values_of-AreSent lower [] = tt
values_of-AreSent lower (w ∷ ws) = (refl, values_of-AreSent lower ws)

bytes_of-ReadsBack : (lower : List ℕ → List ℕ) (w : Warning) → ReadsBack lower plain_mapper w
unfolding serialize deserialize
bytes_of-ReadsBack lower w value e =
    let same : some (bytes_of w) ≡ value = cc in
    let text = drop_first-append w.severidade w.descricao in
    let kind = take_first-append w.severidade w.descricao in
    subst (λ v. deserialize plain_mapper v ≡ some (some w)) same (rw (kind, text))

pub All-ReadsBack :
    (lower : List ℕ → List ℕ) (ws : List Warning) → All (ReadsBack lower plain_mapper) ws
All-ReadsBack lower [] = tt
All-ReadsBack lower (w ∷ ws) = (bytes_of-ReadsBack lower w, All-ReadsBack lower ws)

-- A poll that gives one record, and throws for one that cannot be read.
abbrev next_record :
    Value → List Value → Option (Option Warning) → Option (List (Option Warning)) × List Value
next_record value values none = (none, value ∷ values)
next_record value values (some record_value) = (some (record_value ∷ []), values)

abbrev one_by_one : List Value → Option (List (Option Warning)) × List Value
one_by_one [] = (some [], [])
one_by_one (value ∷ values) = next_record value values (deserialize plain_mapper value)

next_record-polled :
    (value : Value) (values : List Value) (o : Option (Option Warning))
    (records : List (Option Warning))
    → deserialize plain_mapper value ≡ o
    → (next_record value values o).0 ≡ some records
    → (seen : List Value) × (value ∷ values ≡ seen ++ (next_record value values o).1)
      × AreRead plain_mapper seen records
next_record-polled value values none records read e = absurd (cc)
next_record-polled value values (some w) records read e =
    let one : w ∷ [] ≡ records = cc in
    (value ∷ [], refl, subst (AreRead plain_mapper (value ∷ [])) one (read, tt))

next_record-threw :
    (value : Value) (values : List Value) (o : Option (Option Warning))
    → (next_record value values o).0 ≡ none
    → (next_record value values o).1 ≡ value ∷ values
next_record-threw value values none e = refl
next_record-threw value values (some w) e = absurd (cc)

pub one_by_one-polled :
    (s : List Value) (records : List (Option Warning))
    → (one_by_one s).0 ≡ some records
    → (values : List Value) × (s ≡ values ++ (one_by_one s).1) × AreRead plain_mapper values records
one_by_one-polled [] records e =
    let nothing : [] ≡ records = cc in ([], refl, subst (AreRead plain_mapper []) nothing tt)
one_by_one-polled (value ∷ values) records e =
    next_record-polled value values (deserialize plain_mapper value) records refl e

pub one_by_one-threw : (s : List Value) → (one_by_one s).0 ≡ none → (one_by_one s).1 ≡ s
one_by_one-threw [] e = refl
one_by_one-threw (value ∷ values) e =
    next_record-threw value values (deserialize plain_mapper value) e

abbrev pub list_consumer : Consumer plain_mapper
list_consumer = record {
  State = List Value;
  left = λ s. s;
  poll = one_by_one;
  polled = one_by_one-polled;
  threw = one_by_one-threw;
}

pub list_consumer-KeepsUp : (lower : List ℕ → List ℕ) → KeepsUp lower plain_mapper list_consumer
list_consumer-KeepsUp lower = record {
  moves = λ s value values w e read.
      let front : one_by_one s ≡ next_record value values (some w) =
        ap one_by_one e ∙ ap (next_record value values) read in
      let left : length (one_by_one s).1 ≡ length values = ap (λ r. length r.1) front in
      let size : length s ≡ length (value ∷ values) = ap length e in omega arith;
}
