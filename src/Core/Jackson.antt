-- ===== src/Core/Jackson.antt =====
-- Jackson, the JSON library of the services, as FlowParser calls it: its operations are parameters,
-- and the laws say what its documentation states of a tree of values.
use kaf_katch.Prelude.{ℕ, ◌^◌, ◌<◌, ◌≡◌, Option, none, some, if◌then◌else◌, List, ◌∷◌, ◌++◌}
use kaf_katch.Prelude.Int.{ℤ, pos}
use kaf_katch.Text.{decimal}
use kaf_katch.Core.Flow.{text_eq}

-- The values of RFC 8259 that the messages hold. A number with a fraction is its text.
mutual
  pub data Json : Type 0 where
    str : List ℕ → Json
    int : ℕ → Json
    real : List ℕ → Json
    object : Fields → Json

  pub data Fields : Type 0 where
    no_fields : Fields
    field : List ℕ → Json → Fields → Fields

-- The text of a value before some rest, without blanks. No character of the texts is escaped.
unfoldable mutual
  pub print_onto : Json → List ℕ → List ℕ
  print_onto (str t) rest = b'"' ∷ (t ++ b'"' ∷ rest)
  print_onto (int n) rest = decimal n ++ rest
  print_onto (real t) rest = t ++ rest
  print_onto (object no_fields) rest = b'{' ∷ b'}' ∷ rest
  print_onto (object (field k v fs)) rest =
      b'{' ∷ b'"' ∷ (k ++ b'"' ∷ b':' ∷ print_onto v (print_fields fs (b'}' ∷ rest)))

  pub print_fields : Fields → List ℕ → List ℕ
  print_fields no_fields rest = rest
  print_fields (field k v fs) rest =
      b',' ∷ b'"' ∷ (k ++ b'"' ∷ b':' ∷ print_onto v (print_fields fs rest))

unfoldable pub lookup_field : List ℕ → Fields → Option Json
lookup_field k no_fields = none
lookup_field k (field j v fs) = if text_eq j k then some v else lookup_field k fs

abbrev pub map_option {ℓ κ} : {A : Type ℓ} {B : Type κ} → (A → B) → Option A → Option B
map_option f none = none
map_option f (some a) = some (f a)

pub record Jackson (D : Type 0) : Type 1 where
  -- JsonNode, and the node of a value
  pub Node : Type 0
  pub node : Json → Node
  -- `mapper.readTree`, none where it throws; `get`, none for null
  pub read_tree : List ℕ → Option Node
  pub get : Node → List ℕ → Option Node
  pub as_text : Node → List ℕ
  pub as_int : Node → ℤ
  pub as_double : Node → D
  -- Double.parseDouble
  pub parse_double : List ℕ → D
  pub get-node :
      (fs : Fields) (k : List ℕ) → get (node (object fs)) k ≡ map_option node (lookup_field k fs)
  pub as_text-node : (t : List ℕ) → as_text (node (str t)) ≡ t
  -- Beyond an `int` nothing is said.
  pub as_int-node : (n : ℕ) → n < 2 ^ 31 → as_int (node (int n)) ≡ pos n
  pub as_double-node : (t : List ℕ) → as_double (node (real t)) ≡ parse_double t
