-- ===== src/Sniffer/System/Nodes.antt =====
-- What the nodes of the active table (sniffer/src/flow.c) say of the packets captured, in every state
-- that the two threads reach.
use kaf_katch.Prelude.{
  ℕ, ◌+◌, ◌%◌, ◌^◌, ◌≤◌, ◌<◌, ◌≡◌, ◌≢◌, refl, sym, ap, ◌∙◌, subst, inl, inr, Bool-cases, true,
  false, ◌==◌, Option, none, some, List, [], ◌∷◌, length, All, low_mask, arith,
}
use kaf_katch.Double.{Double}
use kaf_katch.Sniffer.Stats.{FlowKey, PktStats, key_eq, key_eq_iff}
use kaf_katch.Sniffer.Flow.{Flow, new_flow, flow_update_stats, infer_direction}
use kaf_katch.Sniffer.Flow.Direction.{direction_of, infer_direction-low_mask}
use kaf_katch.Sniffer.Flow.Summary.{
  IsSized, Summary, replay, total_payload, least, greatest, first_time, flagged,
}
use kaf_katch.Sniffer.Flow.Replay.{update-Summary, replay-key_direction}
use kaf_katch.Sniffer.UtHash.{UtHash, Members, lookup}
use kaf_katch.Sniffer.Window.{Network, open_flow, window, find_flow, of_key}
use kaf_katch.Sniffer.Window.Flows.{flow_of, find_flow-window}
use kaf_katch.Sniffer.Context.{table_at}
use kaf_katch.Sniffer.Context.Table.{owns, Holds, Holds-HasUniqueKeys}
use kaf_katch.Sniffer.System.{Flusher, resting, awake, stopped, exporting, System, start, Reaches}
use kaf_katch.Sniffer.System.Invariant.{Exports, nodes_left}
use kaf_katch.Sniffer.System.Reach.{Reaches-Inv}
use kaf_katch.Sniffer.System.Messages.{Reaches-HasParsed}

module _ {D : Type 0} (cell : ℕ → Option (Flow D)) (brk : ℕ) where
  -- A node of the members is found by the key of its flow.
  lookup-owned :
      (ms : Members) (fs : List (Flow D)) (q : ℕ) (f : Flow D)
      → Holds cell brk ms fs
      → owns q ms ≡ true
      → cell q ≡ some f
      → lookup f.key ms ≡ some q
  unfolding lookup owns
  lookup-owned [] fs q f h mine e = absurd (cc)
  lookup-owned ((k, p) ∷ ms) [] q f h mine e = absurd h
  lookup-owned ((k, p) ∷ ms) (g ∷ fs) q f h mine e = elim (Bool-cases (p == q)) [
    | inl at ↦
        let here : p ≡ q = ground arith in
        let same : g ≡ f = cc in
        let key : k ≡ f.key = sym h.1 ∙ ap (λ (x : Flow D). x.key) same in
        rw ((key_eq_iff k f.key).1 key) (ap some here)
    | inr other ↦
        let later = lookup-owned ms fs q f h.5 (ground arith) e in
        elim (Bool-cases (key_eq k f.key)) [
          | inl same ↦
              let new : lookup f.key ms ≡ none =
                subst (λ j. lookup j ms ≡ none) ((key_eq_iff k f.key).0 same) h.4 in
              absurd (cc)
          | inr apart ↦ rw apart later
        ]
  ]

  -- What is found for a key, in the table and in the list of flows.
  abbrev Agree : FlowKey → Option ℕ → Option (Flow D) → Type 0
  Agree k none o = o ≡ none
  Agree k (some q) o = (f : Flow D) × (cell q ≡ some f) × (f.key ≡ k) × (o ≡ some f)

  lookup-Agree :
      (ms : Members) (fs : List (Flow D)) (k : FlowKey)
      → Holds cell brk ms fs
      → Agree k (lookup k ms) (find_flow k fs)
  unfolding lookup find_flow
  lookup-Agree [] [] k h = refl
  lookup-Agree [] (f ∷ fs) k h = absurd h
  lookup-Agree (m ∷ ms) [] k h = absurd h
  lookup-Agree ((j, p) ∷ ms) (f ∷ fs) k h = elim (Bool-cases (key_eq j k)) [
    | inl same ↦
        let same' : key_eq f.key k ≡ true = ap (λ i. key_eq i k) h.1 ∙ same in
        rw (same, same') (f, h.0, h.1 ∙ (key_eq_iff j k).0 same, refl)
    | inr apart ↦
        let apart' : key_eq f.key k ≡ false = ap (λ i. key_eq i k) h.1 ∙ apart in
        rw (apart, apart') (lookup-Agree ms fs k h.5)
  ]

module _ (F : Double) (net : Network) where
  open-Summary_first :
      (k : FlowKey) (p : PktStats)
      → IsSized p
      → Summary (flow_update_stats F (open_flow F net k) p) p []
  unfolding open_flow new_flow flow_update_stats total_payload least greatest first_time flagged
  open-Summary_first k p h = ground arith

  -- A new flow with its direction counts like one without it.
  open-Summary :
      (k : FlowKey) (p : PktStats) (ps : List PktStats)
      → All IsSized (p ∷ ps)
      → length ps + 1 < 2 ^ 32
      → Summary (replay F (open_flow F net k) (p ∷ ps)) p ps
  unfolding replay
  open-Summary k p [] h n = open-Summary_first k p h.0
  open-Summary k p (q ∷ qs) h n =
      update-Summary F (replay F (open_flow F net k) (q ∷ qs)) p q qs h.0 (omega arith)
        (open-Summary k q qs h.1 (omega arith))

  of_key-IsSized :
      (k : FlowKey) (history : List PktStats) → All IsSized history → All IsSized (of_key k history)
  unfolding of_key
  of_key-IsSized k [] h = tt
  of_key-IsSized k (s ∷ history) h = ground (arith, of_key-IsSized k history h.1)

  length-of_key :
      (k : FlowKey) (history : List PktStats) → length (of_key k history) ≤ length history
  unfolding of_key
  length-of_key k [] = omega arith
  length-of_key k (s ∷ history) = ground (arith, length-of_key k history)

  -- What a node, or that there is none, says of the packets of a key: its flow counts just these, in
  -- the direction that the prefixes of n bits of its ends give.
  abbrev pub Tells :
      (n : ℕ) (cell : ℕ → Option (Flow F.Carrier)) (k : FlowKey) → Option ℕ → List PktStats → Type 0
  Tells n cell k none [] = Unit
  Tells n cell k none (p ∷ ps) = ⊥
  Tells n cell k (some q) [] = ⊥
  Tells n cell k (some q) (p ∷ ps) =
      (f : Flow F.Carrier) × (cell q ≡ some f)
      × (f.key ≡ k)
      × (f.direction
          ≡ direction_of (k.src_ip % 2 ^ n == net.net_ip) (k.dst_ip % 2 ^ n == net.net_ip))
      × Summary f p ps

  open-direction :
      (n : ℕ) (k : FlowKey) (ps : List PktStats)
      → net.net_mask ≡ low_mask n
      → low_mask n ≢ 0
      → (replay F (open_flow F net k) ps).direction
        ≡ direction_of (k.src_ip % 2 ^ n == net.net_ip) (k.dst_ip % 2 ^ n == net.net_ip)
  open-direction n k ps mask ones =
      (replay-key_direction F (open_flow F net k) ps).1
      ∙ unfold open_flow in
        ap (λ m. infer_direction net.net_ip m k) mask ∙ infer_direction-low_mask n net.net_ip k ones

  Agree-Tells :
      (n : ℕ) (cell : ℕ → Option (Flow F.Carrier)) (k : FlowKey) (o : Option ℕ) (ps : List PktStats)
      → net.net_mask ≡ low_mask n
      → low_mask n ≢ 0
      → All IsSized ps
      → length ps < 2 ^ 32
      → Agree cell 0 k o
          (elim ps [ [] ↦ none | p ∷ ps ↦ some (replay F (open_flow F net k) (p ∷ ps)) ])
      → Tells n cell k o ps
  Agree-Tells n cell k none [] mask ones z l a = tt
  Agree-Tells n cell k none (p ∷ ps) mask ones z l a = absurd (cc)
  Agree-Tells n cell k (some q) [] mask ones z l a = let bad = a.3 in absurd (cc)
  Agree-Tells n cell k (some q) (p ∷ ps) mask ones z l a =
      let (f, at, key, same) = a in
      let same' : replay F (open_flow F net k) (p ∷ ps) ≡ f = cc in
      (
        f,
        at,
        key,
        ap (λ (g : Flow F.Carrier). g.direction) (sym same')
            ∙ open-direction n k (p ∷ ps) mask ones,
        subst (λ g. Summary g p ps) same' (open-Summary k p ps z (omega arith)),
      )

module _ (F : Double) (U : UtHash) (net : Network) (quota : ℕ) {s : System F U}
    (r : Reaches F U (start F U net.net_ip net.net_mask quota) s) where
  open U use {Table, members}

  -- What HASH_FIND gives for a key in the active table, in every state that the two threads reach:
  -- nothing if no packet of the key was captured since the last exchange, and otherwise a node with
  -- the flow of just the packets of that key, whatever packets of other keys came between them: their
  -- number, their bytes modulo 2 ^ 32, the extremes of their payloads, their first and last times and
  -- their TCP flags, in the direction that the network prefixes of its two ends give. This is for a
  -- mask of n ones, at least one, from the first octet on (n a multiple of 8), and fewer than 2 ^ 32
  -- packets since the last exchange.
  pub find-Tells :
      (n : ℕ) (k : FlowKey)
      → net.net_mask ≡ low_mask n
      → low_mask n ≢ 0
      → length s.current < 2 ^ 32
      → (t : Table) × (table_at s.ctx s.ctx.active_idx ≡ some t)
        × Tells F net n s.world.cell k (U.find k t) (of_key k s.current)
  unfolding flow_of
  find-Tells n k mask ones few =
      let v = Reaches-Inv F U net quota r in
      let fs = window F net s.current in
      let unique = Holds-HasUniqueKeys s.world.cell s.world.brk (members v.table) fs v.held in
      let sized = (Reaches-HasParsed F U net.net_ip net.net_mask quota r).sized_now in
      let count = length-of_key F net k s.current in
      let found = lookup-Agree s.world.cell s.world.brk (members v.table) fs k v.held in
      (
        v.table,
        v.active,
        rw (U.find-members k v.table unique) (
            Agree-Tells F net n s.world.cell k (lookup k (members v.table)) (of_key k s.current)
              mask ones (of_key-IsSized F net k s.current sized) (omega arith)
              (subst (Agree s.world.cell s.world.brk k (lookup k (members v.table)))
                (find_flow-window F net k s.current) found)),
      )

  not_exported :
      (fl : Flusher F U) (table : Table) (q : ℕ)
      → Exports F U net fl table s.world s.closed
      → owns q (members table) ≡ true
      → owns q (nodes_left F U net fl) ≡ false
  unfolding owns
  not_exported resting table q x mine = refl
  not_exported awake table q x mine = refl
  not_exported stopped table q x mine = refl
  not_exported (exporting t rest) table q x mine = elim (Bool-cases (owns q rest)) [
    | inl theirs ↦ let apart = x.apart q theirs in absurd (cc)
    | inr free ↦ free
  ]

  -- In every state that the two threads reach, two nodes of the active table whose flows have the
  -- same key are one node, and it is none of those that flush_worker still has to export and free.
  pub nodes_distinct :
      (t : Table) (q q' : ℕ) (f f' : Flow F.Carrier)
      → table_at s.ctx s.ctx.active_idx ≡ some t
      → owns q (members t) ≡ true
      → owns q' (members t) ≡ true
      → s.world.cell q ≡ some f
      → s.world.cell q' ≡ some f'
      → f.key ≡ f'.key
      → (q ≡ q') × (owns q (nodes_left F U net s.flusher) ≡ false)
  nodes_distinct t q q' f f' active mine mine' at at' same =
      let v = Reaches-Inv F U net quota r in
      let active' = v.active in
      let this : t ≡ v.table = cc in
      let fs = window F net s.current in
      let owned : owns q (members v.table) ≡ true =
        subst (λ u. owns q (members u) ≡ true) this mine in
      let owned' : owns q' (members v.table) ≡ true =
        subst (λ u. owns q' (members u) ≡ true) this mine' in
      let a = lookup-owned s.world.cell s.world.brk (members v.table) fs q f v.held owned at in
      let b = lookup-owned s.world.cell s.world.brk (members v.table) fs q' f' v.held owned' at' in
      let b' : lookup f.key (members v.table) ≡ some q' =
        ap (λ k. lookup k (members v.table)) same ∙ b in
      (cc, not_exported s.flusher v.table q v.exports owned)
