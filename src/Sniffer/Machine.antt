-- ===== src/Sniffer/Machine.antt =====
-- What the functions of the sniffer act on: the heap of flow nodes and the calls that leave the
-- program. A function is a command over it. The process ends in `exits`; a use of memory that is
-- not allocated, or a read outside a buffer or an array, is a `fault`.
use kaf_katch.Prelude.{ℕ, suc, ◌-◌, Option, none, some, ◌==◌, if◌then◌else◌, List, [], ◌∷◌}
use kaf_katch.Sniffer.Flow.{Flow}

-- A call of librdkafka with an effect outside the program.
pub data Call : Type 0 where
  produce : (topic payload : List ℕ) → Call
  poll : (timeout_ms : ℕ) → Call
  flush : (timeout_ms : ℕ) → Call
  destroy : Call
  wait_destroyed : (timeout_ms : ℕ) → Call

-- The messages that are sent, newest first.
unfoldable pub payloads : List Call → List (List ℕ)
payloads [] = []
payloads (produce topic text ∷ calls) = text ∷ payloads calls
payloads (poll timeout ∷ calls) = payloads calls
payloads (flush timeout ∷ calls) = payloads calls
payloads (destroy ∷ calls) = payloads calls
payloads (wait_destroyed timeout ∷ calls) = payloads calls

-- `cell` is the heap; calloc gives the address `brk`, as long as `quota` lasts (which it fails
-- after, the program has no other allocation); `calls` are newest first.
pub record World (D : Type 0) : Type 0 where
  pub cell : ℕ → Option (Flow D)
  pub brk : ℕ
  pub quota : ℕ
  pub calls : List Call

pub data Run (D A : Type 0) : Type 0 where
  ok : A → World D → Run D A
  exits : (status : ℕ) → Run D A
  fault : Run D A

abbrev pub Prog : Type 0 → Type 0 → Type 0
Prog D A = World D → Run D A

module _ {D : Type 0} where
  abbrev pub pure : {A : Type 0} → A → Prog D A
  pure = ok

  abbrev pub and_then : {A B : Type 0} → Run D A → (A → Prog D B) → Run D B
  and_then (ok a w) k = k a w
  and_then (exits status) k = exits status
  and_then fault k = fault

  infixl 5 ◌>>=◌ ◌>>◌
  abbrev pub ◌>>=◌ : {A B : Type 0} → Prog D A → (A → Prog D B) → Prog D B
  m >>= k = λ w. and_then (m w) k

  abbrev pub ◌>>◌ : {B : Type 0} → Prog D (Unit {0}) → Prog D B → Prog D B
  m >> n = m >>= λ _. n

  abbrev pub need : {A : Type 0} → Option A → Prog D A
  need none = λ _. fault
  need (some a) = pure a

  abbrev pub update : (ℕ → Option (Flow D)) → ℕ → Option (Flow D) → ℕ → Option (Flow D)
  update cell p c q = if p == q then c else cell q

  -- `*p`
  unfoldable pub load : ℕ → Prog D (Flow D)
  load p w = need (w.cell p) w

  -- An assignment to the node at `p`, which must be allocated.
  unfoldable pub store : ℕ → Flow D → Prog D (Unit {0})
  unfolding load
  store p f = do _ ← load p; (λ w. ok tt (record w { cell = update w.cell p (some f) }))

  -- calloc(1, sizeof(flow_t)), which leaves `blank`, or NULL.
  unfoldable pub calloc : Flow D → Prog D (Option ℕ)
  calloc blank w =
      if w.quota == 0
      then ok none w
      else ok (some w.brk) (record {
        cell = update w.cell w.brk (some blank);
        brk = suc w.brk;
        quota = w.quota - 1;
        calls = w.calls;
      })

  unfoldable pub free : ℕ → Prog D (Unit {0})
  unfolding load
  free p = do _ ← load p; (λ w. ok tt (record w { cell = update w.cell p none }))

  unfoldable pub call : Call → Prog D (Unit {0})
  call c w = ok tt (record w { calls = c ∷ w.calls })
