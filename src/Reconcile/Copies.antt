-- ===== src/Reconcile/Copies.antt =====
-- The copies of the nodes in `reconcile_python` (python/sdpstudio_codegen/reconcile.py): how they are
-- found, by variable and by name, and how a configuration is written.
use Prim.Native.Char.{code}
use sdp_studio.Prelude.{
  ℕ, String, Bool, true, false, List, [], ◌∷◌, Option, none, some, eqb, ◌==◌, if◌then◌else◌,
}
use sdp_studio.Prelude.Dict.{Dict, lookup, insert}
use sdp_studio.Json.{Json, Fields, get}
use sdp_studio.Models.{Node}
use sdp_studio.Reconcile.Region.{OwnershipRegion}

pub record ReconcileProblem : Type 0 where
  pub code : String
  pub line : Option ℕ

abbrev pub problem : String → ℕ → ReconcileProblem
problem code line = record { code = code; line = some line }

-- `c` with `-` as `_`
unfoldable pub with_underscores : String → String
with_underscores String.[] = String.[]
with_underscores (String.◌∷◌ c s) =
    let rest = with_underscores s in
    if eqb (code c) 45 then String.◌∷◌ "_" rest else String.◌∷◌ c rest

-- `f"n_{node.id.replace('-', '_')}"`
unfoldable pub variable_of : String → String
unfolding with_underscores
variable_of id = String.◌∷◌ "n" (String.◌∷◌ "_" (with_underscores id))

-- `by_var.get(name)`, by the id of the node: of two nodes with one variable the later counts.
unfoldable pub node_for : String → List Node → Option String
unfolding variable_of
node_for variable [] = none
node_for variable (n ∷ ns) = elim (node_for variable ns) [
  | some id ↦ some id
  | none ↦ if variable_of n.id == variable then some n.id else none
]

-- `n.config.get("name") == value`, where `None` equals a missing name
unfoldable pub is_named : Option String → Node → Bool
is_named value n = elim (get "name" n.config) [
  | none ↦ elim value [ none ↦ true | some _ ↦ false ]
  | some Json.null ↦ elim value [ none ↦ true | some _ ↦ false ]
  | some (Json.str s) ↦ elim value [ none ↦ false | some v ↦ s == v ]
  | some _ ↦ false
]

-- `next((n for n in nodes.values() if ...), None)`
unfoldable pub find_named : Option String → Dict Node → Option String
unfolding is_named
find_named value [] = none
find_named value ((id, n) ∷ nodes) =
    let rest = find_named value nodes in if is_named value n then some id else rest

pub record State : Type 0 where
  pub nodes : Dict Node
  pub problems : List ReconcileProblem
  pub regions : List OwnershipRegion

abbrev edit_config : (Fields → Fields) → Option Node → String → Dict Node → Dict Node
edit_config f none id nodes = nodes
edit_config f (some n) id nodes = insert id (record n { config = f n.config }) nodes

-- A change of the configuration of one copy.
unfoldable pub write_config : String → (Fields → Fields) → Dict Node → Dict Node
write_config id f nodes = edit_config f (lookup id nodes) id nodes

unfoldable pub write_if : Option String → (Fields → Fields) → Dict Node → Dict Node
unfolding write_config
write_if none f nodes = nodes
write_if (some id) f nodes = write_config id f nodes
