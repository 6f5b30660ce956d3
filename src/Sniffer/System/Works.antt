-- ===== src/Sniffer/System/Works.antt =====
-- The moves of flush_worker (sniffer/src/main.c) on its own.
use kaf_katch.Prelude.{
  ◌≡◌, refl, ap, inl, inr, ◌⊎◌, subst, if◌then◌else◌, Option, none, some, [], ◌∷◌,
}
use kaf_katch.Double.{Double}
use kaf_katch.Sniffer.UtHash.{UtHash, Members}
use kaf_katch.Sniffer.Context.{Context}
use kaf_katch.Sniffer.Kafka.{send_one}
use kaf_katch.Sniffer.Machine.{Run, ok, fault, exits, poll, flush}
use kaf_katch.Sniffer.System.{
  topic_name, exchange_tables, Flusher, resting, awake, exporting, stopped, System, Moves, captures,
  stops, wakes, returns, skips, exchanges, sends, finishes, Reaches, next,
}

module _ (F : Double) (U : UtHash) where
  open U use {Table, members, is_null}

  -- Whether a move is one of flush_worker.
  abbrev pub IsWork : {s t : System F U} → Moves F U s t → Type 0
  IsWork (captures h bytes running octets e) = ⊥
  IsWork stops = ⊥
  IsWork (returns e stopping) = Unit
  IsWork (wakes e running) = Unit
  IsWork (skips e x q) = Unit
  IsWork (exchanges e x q) = Unit
  IsWork (sends e x) = Unit
  IsWork (finishes e) = Unit

  -- Some of these moves, one after the other.
  pub data Works : System F U → System F U → Type 0 where
    idle : {s : System F U} → Works s s
    work : {s t u : System F U} (m : Moves F U s t) → IsWork m → Works t u → Works s u

  pub Works-trans : {s t u : System F U} → Works s t → Works t u → Works s u
  Works-trans idle q = q
  Works-trans (work m h p) q = work m h (Works-trans p q)

  pub Works-Reaches : {r s t : System F U} → Reaches F U r s → Works s t → Reaches F U r t
  Works-Reaches r idle = r
  Works-Reaches r (work m h p) = Works-Reaches (next r m) p

  -- The move of flush_worker in a state, none where it has returned.
  abbrev pub exchanged : System F U → Option (Table × Context Table) → Option (System F U)
  exchanged s none = none
  exchanged s (some (t, ctx)) = some (record s {
    ctx = ctx;
    flusher = if is_null t then resting else exporting t (members t);
    current = [];
    closed = s.current ∷ s.closed;
  })

  abbrev pub sent_on : System F U → Members → Run F.Carrier Table → Option (System F U)
  sent_on s rest (ok t w) = some (record s { world = w; flusher = exporting t rest })
  sent_on s rest fault = none
  sent_on s rest (exits n) = none

  abbrev pub work_step : Flusher F U → System F U → Option (System F U)
  work_step resting s = some (record s { flusher = if s.ctx.is_running then awake else stopped })
  work_step awake s = exchanged s (exchange_tables U s.ctx)
  work_step (exporting t []) s = some (record s {
    world = record s.world { calls = flush 500 ∷ poll 0 ∷ s.world.calls };
    flusher = resting;
  })
  work_step (exporting t ((k, p) ∷ rest)) s = sent_on s rest (send_one F U topic_name t p s.world)
  work_step stopped s = none

  work_step-move :
      {s t : System F U} (m : Moves F U s t) → IsWork m → work_step s.flusher s ≡ some t
  work_step-move (captures h bytes running octets e) h' = absurd h'
  work_step-move stops h' = absurd h'
  work_step-move (returns e q) h = rw (e, q) refl
  work_step-move (wakes e q) h = rw (e, q) refl
  work_step-move (skips e x q) h = rw (e, x, q) refl
  work_step-move (exchanges e x q) h = rw (e, x, q) refl
  work_step-move (sends e x) h = rw (e, x) refl
  work_step-move (finishes e) h = rw (e) refl

  -- flush_worker has no choice.
  work_unique :
      {s t u : System F U} (m : Moves F U s t) (m' : Moves F U s u) → IsWork m → IsWork m' → t ≡ u
  work_unique m m' h h' = let a = work_step-move m h in let b = work_step-move m' h' in cc

  -- Of two states that it comes to, it comes from one to the other.
  pub Works-meet : {s t u : System F U} → Works s t → Works s u → Works t u ⊎ Works u t
  Works-meet idle q = inl q
  Works-meet (work m h p) idle = inr (work m h p)
  Works-meet {s} {t} {u} (work m h p) (work m' h' q) =
      Works-meet p (subst (λ v. Works v u) (work_unique m' m h' h) q)

  pub stopped-Works : {s u : System F U} → s.flusher ≡ stopped → Works s u → Works u s
  stopped-Works e idle = idle
  stopped-Works {s} e (work m h p) =
      let moved = work_step-move m h in
      let halted : work_step s.flusher s ≡ none = ap (λ fl. work_step fl s) e in absurd (cc)
