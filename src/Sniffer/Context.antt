-- ===== src/Sniffer/Context.antt =====
-- sniffer/src/parser.h (`struct sniffer_context`) and the table code of flow.c: flow_create,
-- flow_process_packet, flow_table_clear. The context outlives every call, so a command takes it and
-- returns it. The pthread mutex is the atomicity of the moves of `Sniffer.System`, and
-- `kafka_producer` is left out, as main gives it a handle that is not NULL.
pub mod Table
pub mod Process
use kaf_katch.Prelude.{
  ℕ, ◌≡◌, arith, inl, inr, Bool, Bool-cases, Option, none, some, ◌==◌, if◌then◌else◌, List, [], ◌∷◌,
}
use kaf_katch.Double.{Double}
use kaf_katch.Sniffer.Stats.{FlowKey, PktStats}
use kaf_katch.Sniffer.Flow.{Flow, new_flow, flow_update_stats, infer_direction}
use kaf_katch.Sniffer.Machine.{Prog, exits, pure, ◌>>=◌, ◌>>◌, need, load, store, calloc, free}
use kaf_katch.Sniffer.UtHash.{UtHash, Members}

-- `tables[2]` is the two fields `table_0` and `table_1`.
pub record Context (Table : Type 0) : Type 0 where
  pub table_0 : Table
  pub table_1 : Table
  pub active_idx : ℕ
  pub net_ip : ℕ
  pub net_mask : ℕ
  pub is_running : Bool

-- `ctx->tables[i]`, none out of the bounds of the array.
unfoldable pub table_at : {T : Type 0} → Context T → ℕ → Option T
table_at ctx i = if i == 0 then some ctx.table_0 else if i == 1 then some ctx.table_1 else none

-- `ctx->tables[i] = t`
unfoldable pub set_table : {T : Type 0} → Context T → ℕ → T → Option (Context T)
set_table ctx i t =
    if i == 0
    then some (record ctx { table_0 = t })
    else if i == 1
    then some (record ctx { table_1 = t })
    else none

-- Where there is a table, it can be replaced.
pub set_table_lem :
    {T : Type 0} (ctx : Context T) (i : ℕ) (t t' : T)
    → table_at ctx i ≡ some t
    → (ctx' : Context T) × (set_table ctx i t' ≡ some ctx')
unfolding table_at set_table
set_table_lem ctx i t t' e = elim (Bool-cases (i == 0)) [
  | inl first ↦ (record ctx { table_0 = t' }, ground arith)
  | inr other ↦ (record ctx { table_1 = t' }, ground arith)
]

abbrev pub exit_failure : ℕ
exit_failure = 1

module _ (F : Double) where
  -- `flow_create`
  unfoldable pub flow_create : FlowKey → Prog F.Carrier ℕ
  unfolding calloc
  flow_create key = do
    node ← calloc (new_flow F key)
    elim node [ none ↦ (λ _. exits exit_failure) | some p ↦ pure p ]

  -- A macro of uthash reads the nodes of its table: all of them have to be allocated.
  unfoldable pub touch : Members → Prog F.Carrier (Unit {0})
  unfolding load
  touch [] = pure tt
  touch ((k, p) ∷ ms) = do _ ← load p; touch ms

module _ (F : Double) (U : UtHash) where
  open U use {Table, members, find, add, del, null}

  -- The miss of flow_process_packet: create the flow, infer its direction, insert it.
  unfoldable pub add_flow : Context Table → Table → FlowKey → Prog F.Carrier (ℕ × Context Table)
  unfolding flow_create load store
  add_flow ctx table key = do
    p ← flow_create F key
    flow ← load p
    store p (record flow { direction = infer_direction ctx.net_ip ctx.net_mask key })
    touch F (members table)
    ctx' ← need (set_table ctx ctx.active_idx (add key p table))
    pure (p, ctx')

  unfoldable pub find_or_add :
      Context Table → Table → FlowKey → Option ℕ → Prog F.Carrier (ℕ × Context Table)
  unfolding add_flow
  find_or_add ctx table key none = add_flow ctx table key
  find_or_add ctx table key (some p) = pure (p, ctx)

  unfoldable pub flow_process_packet : Context Table → PktStats → Prog F.Carrier (Context Table)
  unfolding find_or_add load store
  flow_process_packet ctx stats = do
    table ← need (table_at ctx ctx.active_idx)
    touch F (members table)
    (p, ctx') ← find_or_add ctx table stats.key (find stats.key table)
    flow ← load p
    store p (flow_update_stats F flow stats)
    pure ctx'

  -- HASH_ITER with a body that deletes its node: the next node is read before the body.
  unfoldable pub clear_loop : Members → Table → Prog F.Carrier Table
  unfolding free
  clear_loop [] table = pure table
  clear_loop ((k, p) ∷ rest) table = do
    touch F (members table)
    free p
    clear_loop rest (del p table)

  -- `flow_table_clear`: the result is the value of `*table_ptr`.
  unfoldable pub flow_table_clear : Table → Prog F.Carrier Table
  unfolding clear_loop
  flow_table_clear table = do _ ← clear_loop (members table) table; pure null
