-- ===== src/Sniffer/UtHash.antt =====
-- uthash, the library behind the flow tables, as the sniffer calls it. Its macros are parameters;
-- the laws are those that its user guide states for unique keys.
use kaf_katch.Prelude.{
  ℕ, ◌≡◌, ◌↔◌, Bool, true, false, Option, none, some, ◌==◌, if◌then◌else◌, List, [], ◌∷◌, ◌++◌,
}
use kaf_katch.Sniffer.Stats.{FlowKey, key_eq}

-- The nodes of a table by key, in the order in which HASH_ITER visits them.
abbrev pub Members : Type 0
Members = List (FlowKey × ℕ)

unfoldable pub lookup : FlowKey → Members → Option ℕ
lookup k [] = none
lookup k ((j, p) ∷ ms) = if key_eq j k then some p else lookup k ms

-- The members without the node at `p`.
unfoldable pub remove : ℕ → Members → Members
remove p [] = []
remove p ((j, q) ∷ ms) = if q == p then ms else (j, q) ∷ remove p ms

abbrev pub HasUniqueKeys : Members → Type 0
HasUniqueKeys [] = Unit
HasUniqueKeys ((k, p) ∷ ms) = (lookup k ms ≡ none) × HasUniqueKeys ms

pub record UtHash : Type 1 where
  pub Table : Type 0
  -- the head `NULL`
  pub null : Table
  pub is_null : Table → Bool
  pub members : Table → Members
  -- HASH_FIND, HASH_ADD, HASH_DEL
  pub find : FlowKey → Table → Option ℕ
  pub add : FlowKey → ℕ → Table → Table
  pub del : ℕ → Table → Table
  pub members-null : members null ≡ []
  -- The head is NULL exactly when the table is empty.
  pub is_null_iff : (t : Table) → (is_null t ≡ true) ↔ (members t ≡ [])
  pub find-members :
      (k : FlowKey) (t : Table) → HasUniqueKeys (members t) → find k t ≡ lookup k (members t)
  -- HASH_ADD wants a new key; the node goes to the end of the iteration order.
  pub members-add :
      (k : FlowKey) (p : ℕ) (t : Table)
      → lookup k (members t) ≡ none
      → members (add k p t) ≡ members t ++ (k, p) ∷ []
  pub members-del : (p : ℕ) (t : Table) → members (del p t) ≡ remove p (members t)

-- An instance, which shows that the laws can be met.
abbrev list_is_null : Members → Bool
list_is_null [] = true
list_is_null (m ∷ ms) = false

pub list_is_null_iff : (ms : Members) → (list_is_null ms ≡ true) ↔ (ms ≡ [])
list_is_null_iff [] = ((λ _ _. []), λ _ _. true)
list_is_null_iff (m ∷ ms) = ((λ e. cc), λ e. cc)

abbrev pub list_table : UtHash
list_table = record {
  Table = Members;
  null = [];
  is_null = list_is_null;
  members = λ t. t;
  find = lookup;
  add = λ k p t. t ++ (k, p) ∷ [];
  del = remove;
  members-null = λ _. [];
  is_null_iff = list_is_null_iff;
  find-members = λ k t _ _. lookup k t;
  members-add = λ k p t _ _. t ++ (k, p) ∷ [];
  members-del = λ p t _. remove p t;
}
