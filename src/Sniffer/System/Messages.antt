-- ===== src/Sniffer/System/Messages.antt =====
-- The messages of flush_worker (sniffer/src/main.c), and the packets of its windows as the parser
-- makes them.
use kaf_katch.Prelude.{ℕ, ◌≡◌, ◌≤◌, ◌∙◌, ap, refl, List, [], ◌∷◌, All, length, arith}
use kaf_katch.Double.{Double}
use kaf_katch.Sniffer.Stats.{PktStats}
use kaf_katch.Sniffer.Flow.{Flow}
use kaf_katch.Sniffer.Flow.Types.{KeyFits}
use kaf_katch.Sniffer.Flow.Summary.{IsSized}
use kaf_katch.Sniffer.Machine.{Call, produce, poll, flush}
use kaf_katch.Sniffer.UtHash.{UtHash}
use kaf_katch.Sniffer.Window.{Network, window}
use kaf_katch.Sniffer.Window.Types.{AreParsed, IsReportable, window-IsReportable}
use kaf_katch.Sniffer.Parser.{PcapPkthdr, Step, go, leave, stray, parse_frame}
use kaf_katch.Sniffer.Parser.Fields.{IsPacket, parse_frame-IsPacket}
use kaf_katch.Sniffer.Kafka.{flow_json}
use kaf_katch.Sniffer.Kafka.Json.{json_payload-whole}
use kaf_katch.Sniffer.Kafka.Send.{sent, window_calls}
use kaf_katch.Sniffer.System.{
  topic_name, resting, System, Moves, captures, stops, wakes, returns, skips, exchanges, sends,
  finishes, start, Reaches, here, next, join_window,
}
use kaf_katch.Sniffer.System.Invariant.{all_calls}
use kaf_katch.Sniffer.System.Export.{calls-windows}

IsPacket-KeyFits : (h : PcapPkthdr) (s : PktStats) → IsPacket h s → KeyFits s.key
IsPacket-KeyFits h s p = record {
  src_ip = p.src_ip;
  dst_ip = p.dst_ip;
  src_port = p.src_port;
  dst_port = p.dst_port;
  known = ground (arith, p.known);
}

All-join_window :
    (P : PktStats → Type 0) (parsed : Step PktStats) (history : List PktStats)
    → ((s : PktStats) → parsed ≡ go s → P s)
    → All P history
    → All P (join_window parsed history)
All-join_window P (go s) history k h = (k s refl, h)
All-join_window P leave history k h = h
All-join_window P stray history k h = h

-- The calls of a report on some flows, newest first: for each flow its whole JSON text.
module _ (F : Double) where
  unfoldable pub report : List (Flow F.Carrier) → List Call → List Call
  report [] calls = calls
  report (f ∷ fs) calls = report fs (produce topic_name (flow_json F f) ∷ calls)

  -- A window without a flow causes no call.
  unfoldable pub window_report : List (Flow F.Carrier) → List Call → List Call
  window_report [] calls = calls
  window_report (f ∷ fs) calls = flush 500 ∷ poll 0 ∷ report (f ∷ fs) calls

  -- The reports on the flows of some windows, the last window first.
  unfoldable pub reports : (net : Network) → List (List PktStats) → List Call
  reports net [] = []
  reports net (history ∷ older) = window_report (window F net history) (reports net older)

module _ (F : Double) (short : (d : F.Carrier) → length (F.print_1f d) ≤ 312) (net : Network) where
  sent-report :
      (fs : List (Flow F.Carrier)) (calls : List Call)
      → All IsReportable fs
      → sent F topic_name fs calls ≡ report F fs calls
  unfolding sent report
  sent-report [] calls h = refl
  sent-report (f ∷ fs) calls h =
      ap (λ text. sent F topic_name fs (produce topic_name text ∷ calls))
        (json_payload-whole F short f h.0.fields)
      ∙ sent-report fs _ h.1

  window_calls-report :
      (fs : List (Flow F.Carrier)) (calls : List Call)
      → All IsReportable fs
      → window_calls F topic_name fs calls ≡ window_report F fs calls
  unfolding window_calls window_report
  window_calls-report [] calls h = refl
  window_calls-report (f ∷ fs) calls h =
      ap (λ l. flush 500 ∷ poll 0 ∷ l) (sent-report (f ∷ fs) calls h)

module _ (F : Double) (U : UtHash) where
  -- Every packet of the windows comes from the parser.
  pub record HasParsed (s : System F U) : Type 0 where
    pub now : AreParsed s.current
    pub past : All AreParsed s.closed
    pub sized_now : All IsSized s.current
    pub sized_past : All (λ history. All IsSized history) s.closed

  Moves-HasParsed : {s t : System F U} → Moves F U s t → HasParsed s → HasParsed t
  Moves-HasParsed {s} (captures h bytes running octets e) v =
      let fields = parse_frame-IsPacket h bytes octets in
      record {
        now =
            All-join_window (λ (p : PktStats). KeyFits p.key) (parse_frame h bytes) s.current
              (λ p e'. IsPacket-KeyFits h p (fields p e')) v.now;
        past = v.past;
        sized_now =
            All-join_window IsSized (parse_frame h bytes) s.current (λ p e'. (fields p e').sized)
              v.sized_now;
        sized_past = v.sized_past;
      }
  Moves-HasParsed stops v = record {
    now = v.now;
    past = v.past;
    sized_now = v.sized_now;
    sized_past = v.sized_past;
  }
  Moves-HasParsed (wakes e running) v = record {
    now = v.now;
    past = v.past;
    sized_now = v.sized_now;
    sized_past = v.sized_past;
  }
  Moves-HasParsed (returns e stopping) v = record {
    now = v.now;
    past = v.past;
    sized_now = v.sized_now;
    sized_past = v.sized_past;
  }
  Moves-HasParsed (skips e x q) v = record {
    now = tt;
    past = (v.now, v.past);
    sized_now = tt;
    sized_past = (v.sized_now, v.sized_past);
  }
  Moves-HasParsed (exchanges e x q) v = record {
    now = tt;
    past = (v.now, v.past);
    sized_now = tt;
    sized_past = (v.sized_now, v.sized_past);
  }
  Moves-HasParsed (sends e x) v = record {
    now = v.now;
    past = v.past;
    sized_now = v.sized_now;
    sized_past = v.sized_past;
  }
  Moves-HasParsed (finishes e) v = record {
    now = v.now;
    past = v.past;
    sized_now = v.sized_now;
    sized_past = v.sized_past;
  }

  pub Reaches-HasParsed :
      (net_ip net_mask quota : ℕ) {s : System F U}
      → Reaches F U (start F U net_ip net_mask quota) s
      → HasParsed s
  Reaches-HasParsed net_ip net_mask quota here = record {
    now = tt;
    past = tt;
    sized_now = tt;
    sized_past = tt;
  }
  Reaches-HasParsed net_ip net_mask quota (next r m) =
      Moves-HasParsed m (Reaches-HasParsed net_ip net_mask quota r)

  all_calls-reports :
      (short : (d : F.Carrier) → length (F.print_1f d) ≤ 312) (net : Network)
      (closed : List (List PktStats))
      → All AreParsed closed
      → all_calls F U net closed ≡ reports F net closed
  unfolding all_calls reports
  all_calls-reports short net [] h = refl
  all_calls-reports short net (history ∷ older) h =
      window_calls-report F short net (window F net history) _
        (window-IsReportable F net history h.0)
      ∙ ap (window_report F (window F net history)) (all_calls-reports short net older h.1)

  -- Whenever flush_worker rests between two ticks, however the two threads interleaved, what Kafka
  -- was sent is, for each closed window, the whole JSON text of each of its flows, and no text is
  -- cut off by the buffer, if `%.1f` prints no more than 312 bytes.
  pub calls-reports :
      (short : (d : F.Carrier) → length (F.print_1f d) ≤ 312) (net : Network) (quota : ℕ)
      {s : System F U}
      → Reaches F U (start F U net.net_ip net.net_mask quota) s
      → s.flusher ≡ resting
      → s.world.calls ≡ reports F net s.closed
  calls-reports short net quota {s} r e =
      calls-windows F U net quota r e
      ∙ all_calls-reports short net s.closed
          (Reaches-HasParsed net.net_ip net.net_mask quota r).past
