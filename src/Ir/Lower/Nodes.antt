-- ===== src/Ir/Lower/Nodes.antt =====
-- The parts that the second loop of the lowering makes of the nodes in the order.
use mathlib.Core.List.{append-nil, append_assoc}
use sdp_studio.Prelude.{
  String, Bool, true, false, List, [], ◌∷◌, ◌++◌, map, Option, none, some, ◌≡◌, refl, ap, sym, ◌∙◌,
  ◌||◌, any, keep, contains, if◌then◌else◌, arith, eq_refl,
}
use sdp_studio.Prelude.Dict.{Dict, lookup, get_or}
use sdp_studio.Json.{Fields}
use sdp_studio.Models.{Node}
use sdp_studio.Graph.Index.{GraphIndex}
use sdp_studio.Graph.Order.{done}
use sdp_studio.Ir.{Mode, batch, NodeKind}
use sdp_studio.Ir.Refs.{
  Refs, refers, collect_fields, texts_fields, parameters-note_ref, secrets-note_ref,
  contains-collect_fields,
}
use sdp_studio.Ir.Lower.{
  Parts, no_parts, lower_node, lower_nodes, add_part, kind_of, ir_node, part_of, sink_of,
  dataset_of,
}

abbrev pub push : Option Node → List Node → List Node
push none ns = ns
push (some n) ns = n ∷ ns

-- The nodes under the ids of a list.
unfoldable pub nodes_at : Dict Node → List String → List Node
nodes_at nodes [] = []
nodes_at nodes (v ∷ order) = push (lookup v nodes) (nodes_at nodes order)

abbrev pub mode_at : Dict Mode → Node → Mode
mode_at modes node = get_or node.id batch modes

abbrev pub is_kind : NodeKind → NodeKind → Bool
is_kind NodeKind.source NodeKind.source = true
is_kind NodeKind.sink NodeKind.sink = true
is_kind NodeKind.transform NodeKind.transform = true
is_kind _ _ = false

-- The second loop without its failures.
pub fold_parts : Dict Mode → List Node → Parts → Parts
fold_parts modes [] parts = parts
fold_parts modes (n ∷ ns) parts = fold_parts modes ns (lower_node n (mode_at modes n) parts)

pub lower_nodes-fold :
    (g : GraphIndex) (modes : Dict Mode) (order : List String) (parts : Parts)
    → ((v : String) → contains order v ≡ true → (n : Node) × (lookup v g.nodes ≡ some n))
    → lower_nodes g modes order parts ≡ done (fold_parts modes (nodes_at g.nodes order) parts)
unfolding lower_nodes nodes_at fold_parts
lower_nodes-fold g modes [] parts known = refl
lower_nodes-fold g modes (v ∷ order) parts known =
    let (n, found) = known v (ground (arith, eq_refl v)) in
    rw (found, lower_nodes, nodes_at)
      (lower_nodes-fold g modes order (lower_node n (mode_at modes n) parts)
        (λ w m. known w (ground arith)))

-- A list of the parts that each node adds to, at most one item.
module _ {ℓ} {A : Type ℓ} (view : Parts → List A) (modes : Dict Mode) (p : Node → Bool)
    (make : Node → A)
    (grows : (n : Node) (parts : Parts)
      → view (lower_node n (mode_at modes n) parts)
        ≡ view parts ++ (if p n then make n ∷ [] else [])) where
  join_made :
      (b : Bool) (xs : List A) (a : A) (rest : List A)
      → (xs ++ (if b then a ∷ [] else [])) ++ rest ≡ xs ++ (if b then a ∷ rest else rest)
  join_made true xs a rest = append_assoc xs (a ∷ []) rest
  join_made false xs a rest = ap (λ l. l ++ rest) (append-nil xs)

  map_if :
      (b : Bool) (n : Node) (ns : List Node)
      → (if b then make n ∷ map make ns else map make ns) ≡ map make (if b then n ∷ ns else ns)
  map_if true n ns = refl
  map_if false n ns = refl

  pub view-fold_parts :
      (ns : List Node) (parts : Parts)
      → view (fold_parts modes ns parts) ≡ view parts ++ map make (keep p ns)
  unfolding fold_parts
  view-fold_parts [] parts = sym (append-nil (view parts))
  view-fold_parts (n ∷ ns) parts =
      view-fold_parts ns (lower_node n (mode_at modes n) parts)
      ∙ ap (λ l. l ++ map make (keep p ns)) (grows n parts)
      ∙ join_made (p n) (view parts) (make n) (map make (keep p ns))
      ∙ ap (λ l. view parts ++ l) (map_if (p n) n (keep p ns))

-- What stands in the lists of the parts after the loop.
pub record PartsOf (modes : Dict Mode) (ns : List Node) (parts : Parts) : Type 0 where
  pub nodes : parts.nodes ≡ map (λ n. ir_node n (mode_at modes n)) ns
  pub sources :
      parts.sources
      ≡ map (λ n. part_of n (mode_at modes n)) (keep (λ n. is_kind NodeKind.source (kind_of n)) ns)
  pub transforms :
      parts.transforms
      ≡ map
          (λ n. part_of n (mode_at modes n))
          (keep (λ n. is_kind NodeKind.transform (kind_of n)) ns)
  pub sinks :
      parts.sinks
      ≡ map (λ n. sink_of n (mode_at modes n)) (keep (λ n. is_kind NodeKind.sink (kind_of n)) ns)
  pub datasets :
      parts.datasets
      ≡ map (λ n. dataset_of n (mode_at modes n)) (keep (λ n. is_kind NodeKind.sink (kind_of n)) ns)
  pub parameters :
      (name : String)
      → contains parts.refs.parameters name
        ≡ any (λ n. any (refers "parameter://" name) (texts_fields n.config)) ns
  pub secrets :
      (name : String)
      → contains parts.refs.secrets name
        ≡ any (λ n. any (refers "secret://" name) (texts_fields n.config)) ns

sources-add_part :
    (k : NodeKind) (n : Node) (mode : Mode) (parts : Parts)
    → (add_part k n mode parts).sources
      ≡ parts.sources ++ (if is_kind NodeKind.source k then part_of n mode ∷ [] else [])
unfolding add_part
sources-add_part NodeKind.source n mode parts = refl
sources-add_part NodeKind.sink n mode parts = sym (append-nil parts.sources)
sources-add_part NodeKind.transform n mode parts = sym (append-nil parts.sources)

transforms-add_part :
    (k : NodeKind) (n : Node) (mode : Mode) (parts : Parts)
    → (add_part k n mode parts).transforms
      ≡ parts.transforms ++ (if is_kind NodeKind.transform k then part_of n mode ∷ [] else [])
unfolding add_part
transforms-add_part NodeKind.source n mode parts = sym (append-nil parts.transforms)
transforms-add_part NodeKind.sink n mode parts = sym (append-nil parts.transforms)
transforms-add_part NodeKind.transform n mode parts = refl

sinks-add_part :
    (k : NodeKind) (n : Node) (mode : Mode) (parts : Parts)
    → (add_part k n mode parts).sinks
      ≡ parts.sinks ++ (if is_kind NodeKind.sink k then sink_of n mode ∷ [] else [])
unfolding add_part
sinks-add_part NodeKind.source n mode parts = sym (append-nil parts.sinks)
sinks-add_part NodeKind.sink n mode parts = refl
sinks-add_part NodeKind.transform n mode parts = sym (append-nil parts.sinks)

datasets-add_part :
    (k : NodeKind) (n : Node) (mode : Mode) (parts : Parts)
    → (add_part k n mode parts).datasets
      ≡ parts.datasets ++ (if is_kind NodeKind.sink k then dataset_of n mode ∷ [] else [])
unfolding add_part
datasets-add_part NodeKind.source n mode parts = sym (append-nil parts.datasets)
datasets-add_part NodeKind.sink n mode parts = refl
datasets-add_part NodeKind.transform n mode parts = sym (append-nil parts.datasets)

-- The references of a scheme.
contains-fold_parts :
    (view : Refs → List String) (scheme name : String) (modes : Dict Mode)
    → ((d : Fields) (refs : Refs)
        → contains (view (collect_fields d refs)) name
          ≡ any (refers scheme name) (texts_fields d) || contains (view refs) name)
    → (ns : List Node) (parts : Parts)
    → contains (view (fold_parts modes ns parts).refs) name
      ≡ any (λ n. any (refers scheme name) (texts_fields n.config)) ns
        || contains (view parts.refs) name
unfolding fold_parts lower_node
contains-fold_parts view scheme name modes grows [] parts = refl
contains-fold_parts view scheme name modes grows (n ∷ ns) parts = ground (
  arith,
  contains-fold_parts view scheme name modes grows ns (lower_node n (mode_at modes n) parts),
  grows n.config parts.refs,
)

keep-all : (ns : List Node) → keep (λ n. true) ns ≡ ns
keep-all [] = refl
keep-all (n ∷ ns) = ap (λ l. n ∷ l) (keep-all ns)

pub fold_parts-PartsOf :
    (modes : Dict Mode) (ns : List Node) → PartsOf modes ns (fold_parts modes ns no_parts)
unfolding lower_node
fold_parts-PartsOf modes ns = record {
  nodes =
      view-fold_parts (λ parts. parts.nodes) modes (λ n. true) (λ n. ir_node n (mode_at modes n))
        (λ n parts. refl) ns no_parts
      ∙ ap (map (λ n. ir_node n (mode_at modes n))) (keep-all ns);
  sources =
      view-fold_parts (λ parts. parts.sources) modes (λ n. is_kind NodeKind.source (kind_of n))
        (λ n. part_of n (mode_at modes n))
        (λ n parts. sources-add_part (kind_of n) n (mode_at modes n) parts) ns no_parts;
  transforms =
      view-fold_parts (λ parts. parts.transforms) modes
        (λ n. is_kind NodeKind.transform (kind_of n)) (λ n. part_of n (mode_at modes n))
        (λ n parts. transforms-add_part (kind_of n) n (mode_at modes n) parts) ns no_parts;
  sinks =
      view-fold_parts (λ parts. parts.sinks) modes (λ n. is_kind NodeKind.sink (kind_of n))
        (λ n. sink_of n (mode_at modes n))
        (λ n parts. sinks-add_part (kind_of n) n (mode_at modes n) parts) ns no_parts;
  datasets =
      view-fold_parts (λ parts. parts.datasets) modes (λ n. is_kind NodeKind.sink (kind_of n))
        (λ n. dataset_of n (mode_at modes n))
        (λ n parts. datasets-add_part (kind_of n) n (mode_at modes n) parts) ns no_parts;
  parameters = λ name. ground (
    arith,
    contains-fold_parts (λ refs. refs.parameters) "parameter://" name modes
        (contains-collect_fields (λ refs. refs.parameters) name (refers "parameter://" name)
          (λ s refs. parameters-note_ref s name refs))
        ns no_parts,
  );
  secrets = λ name. ground (
    arith,
    contains-fold_parts (λ refs. refs.secrets) "secret://" name modes
        (contains-collect_fields (λ refs. refs.secrets) name (refers "secret://" name)
          (λ s refs. secrets-note_ref s name refs))
        ns no_parts,
  );
}
