-- ===== src/Sniffer/System/Reach.antt =====
-- The invariant holds in every state that the threads reach.
use kaf_katch.Prelude.{ℕ, ◌∙◌, ap, subst}
use kaf_katch.Double.{Double}
use kaf_katch.Sniffer.UtHash.{UtHash}
use kaf_katch.Sniffer.Window.{Network}
use kaf_katch.Sniffer.Context.{table_at}
use kaf_katch.Sniffer.Context.Table.{owns}
use kaf_katch.Sniffer.Parser.{parse_frame, pkt_handler}
use kaf_katch.Sniffer.System.{
  System, Moves, captures, stops, wakes, returns, skips, exchanges, sends, finishes, start, Reaches,
  here, next,
}
use kaf_katch.Sniffer.System.Invariant.{Exports, nodes_left, Inv, start-Inv}
use kaf_katch.Sniffer.System.Captures.{captures-Inv}
use kaf_katch.Sniffer.System.Flushes.{finishes-Inv, skips-Inv, exchanges-Inv, sends-Inv}

module _ (F : Double) (U : UtHash) (net : Network) where
  open U use {Table, members, null, is_null}

  -- Every move of either thread keeps the invariant.
  pub Moves-Inv : {s t : System F U} → Moves F U s t → Inv F U net s → Inv F U net t
  unfolding pkt_handler table_at
  Moves-Inv {s} (captures h bytes {ctx'} {w'} running octets e) v =
      captures-Inv F U net s (parse_frame h bytes) v ctx' w' e
  Moves-Inv stops v = record {
    table = v.table;
    active = v.active;
    local = v.local;
    held = v.held;
    exports = v.exports;
    no_leak = v.no_leak;
  }
  Moves-Inv {s} (wakes e running) v = record {
    table = v.table;
    active = v.active;
    local = v.local;
    held = v.held;
    exports = subst (λ fl. Exports F U net fl v.table s.world s.closed) e v.exports;
    no_leak = λ q o o'. v.no_leak q o (ap (λ fl. owns q (nodes_left F U net fl)) e ∙ o');
  }
  Moves-Inv {s} (returns e stopping) v = record {
    table = v.table;
    active = v.active;
    local = v.local;
    held = v.held;
    exports = subst (λ fl. Exports F U net fl v.table s.world s.closed) e v.exports;
    no_leak = λ q o o'. v.no_leak q o (ap (λ fl. owns q (nodes_left F U net fl)) e ∙ o');
  }
  Moves-Inv {s} (skips {t} {ctx'} e x silent) v = skips-Inv F U net s t ctx' v e x silent
  Moves-Inv {s} (exchanges {t} {ctx'} e x loud) v = exchanges-Inv F U net s t ctx' v e x loud
  Moves-Inv {s} (sends {t} {t'} {k} {p} {rest} {w'} e x) v =
      sends-Inv F U net s t t' k p rest w' v e x
  Moves-Inv {s} (finishes {t} e) v = finishes-Inv F U net s t v e

  -- The invariant holds of every state that the two threads reach from the start of main.
  pub Reaches-Inv :
      (quota : ℕ) {s : System F U}
      → Reaches F U (start F U net.net_ip net.net_mask quota) s
      → Inv F U net s
  Reaches-Inv quota here = start-Inv F U net quota
  Reaches-Inv quota (next r m) = Moves-Inv m (Reaches-Inv quota r)
