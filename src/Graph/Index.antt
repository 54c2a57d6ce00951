-- ===== src/Graph/Index.antt =====
-- `GraphIndex` of python/sdpstudio_core/graph.py: nodes by id, and the edges at each end.
use sdp_studio.Prelude.{
  sym, ap, ◌∙◌, String, ◌≡◌, refl, Bool, true, false, List, [], ◌∷◌, ◌++◌, map, arith, keep,
  contains, if◌then◌else◌, ◌==◌, eq_iff, ◌||◌, ◌⊎◌, inl, inr, Bool-cases, Memᴰ, some,
}
use mathlib.Core.List.{append_assoc, append-nil}
use sdp_studio.Prelude.Dict.{
  Dict, lookup, insert, get_or, has, IsUnique, lookup-insert, insert-IsUnique, empty-IsUnique,
}
use sdp_studio.Models.{Node, Edge, PipelineDocument, node_ids}

pub record GraphIndex : Type 0 where
  pub document : PipelineDocument
  pub nodes : Dict Node
  pub incoming : Dict (List Edge)
  pub outgoing : Dict (List Edge)

-- `{n.id: n for n in document.nodes}`, from the nodes read so far
unfoldable pub nodes_by_id : List Node → Dict Node → Dict Node
nodes_by_id [] d = d
nodes_by_id (n ∷ ns) d = nodes_by_id ns (insert n.id n d)

-- `d[k].append(edge)` on a `defaultdict(list)`
unfoldable pub append_at : String → Edge → Dict (List Edge) → Dict (List Edge)
append_at k edge d = insert k (get_or k [] d ++ edge ∷ []) d

unfoldable pub link : GraphIndex → List Edge → GraphIndex
unfolding append_at
link g [] = g
link g (edge ∷ edges) =
    link
      (record g {
        incoming = append_at edge.to.node edge g.incoming;
        outgoing = append_at edge.from_.node edge g.outgoing;
      })
      edges

-- `GraphIndex.__init__`
unfoldable pub index_of : PipelineDocument → GraphIndex
unfolding nodes_by_id link
index_of document =
    link
      (record {
        document = document;
        nodes = nodes_by_id document.nodes [];
        incoming = [];
        outgoing = [];
      })
      document.edges

-- `self.incoming.get(v, [])`
abbrev pub edges_into : GraphIndex → String → List Edge
edges_into g v = get_or v [] g.incoming

-- `self.outgoing.get(v, [])`
abbrev pub edges_from : GraphIndex → String → List Edge
edges_from g v = get_or v [] g.outgoing

has-nodes_by_id :
    (ns : List Node) (d : Dict Node) (v : String)
    → has (nodes_by_id ns d) v ≡ contains (map (λ n. n.id) ns) v || has d v
unfolding nodes_by_id
has-nodes_by_id [] d v = refl
has-nodes_by_id (n ∷ ns) d v =
    ground (arith, has-nodes_by_id ns (insert n.id n d) v, lookup-insert n.id v n d)

nodes_by_id-IsUnique : (ns : List Node) (d : Dict Node) → IsUnique d → IsUnique (nodes_by_id ns d)
unfolding nodes_by_id
nodes_by_id-IsUnique [] d h = h
nodes_by_id-IsUnique (n ∷ ns) d h =
    nodes_by_id-IsUnique ns (insert n.id n d) (insert-IsUnique n.id n d h)

-- What a table of nodes holds under an id is a node with that id.
own-nodes_by_id :
    (v : String) (node : Node) (ns : List Node) (d : Dict Node)
    → lookup v (nodes_by_id ns d) ≡ some node
    → (Memᴰ node ns × (node.id ≡ v)) ⊎ (lookup v d ≡ some node)
unfolding nodes_by_id
own-nodes_by_id v node [] d h = inr h
own-nodes_by_id v node (n ∷ ns) d h = elim (own-nodes_by_id v node ns (insert n.id n d) h) [
  | inl (m, e) ↦ inl (Memᴰ.tail m, e)
  | inr found ↦ elim (Bool-cases (n.id == v)) [
    | inl here ↦
        let q : n ≡ node = ground (arith, lookup-insert n.id v n d) in
        inl (Memᴰ.head (sym q), ap (λ (w : Node). w.id) (sym q) ∙ (eq_iff n.id v).0 here)
    | inr off ↦ inr (ground (arith, lookup-insert n.id v n d))
  ]
]

own-only :
    (v : String) (node : Node) (ns : List Node)
    → lookup v (nodes_by_id ns []) ≡ some node
    → Memᴰ node ns × (node.id ≡ v)
unfolding lookup
own-only v node ns h = elim (own-nodes_by_id v node ns [] h) [ inl r ↦ r | inr e ↦ cc ]

get_or-append_at :
    (k v : String) (e : Edge) (d : Dict (List Edge))
    → get_or v [] (append_at k e d) ≡ get_or v [] d ++ (if k == v then e ∷ [] else [])
unfolding append_at
get_or-append_at k v e d =
    ground
      (arith, lookup-insert k v (get_or k [] d ++ e ∷ []) d, eq_iff k v, append-nil (get_or v [] d))

append_if :
    (b : Bool) (xs : List Edge) (e : Edge) (rest : List Edge)
    → (xs ++ (if b then e ∷ [] else [])) ++ rest ≡ xs ++ (if b then e ∷ rest else rest)
append_if true xs e rest = append_assoc xs (e ∷ []) rest
append_if false xs e rest = ap (λ l. l ++ rest) (append-nil xs)

edges_into-link :
    (g : GraphIndex) (es : List Edge) (v : String)
    → edges_into (link g es) v ≡ edges_into g v ++ keep (λ e. e.to.node == v) es
unfolding link
edges_into-link g [] v = sym (append-nil (edges_into g v))
edges_into-link g (e ∷ es) v =
    let rest = keep (λ (d : Edge). d.to.node == v) es in
    edges_into-link
      (record g {
        incoming = append_at e.to.node e g.incoming;
        outgoing = append_at e.from_.node e g.outgoing;
      })
      es v
    ∙ ap (λ l. l ++ rest) (get_or-append_at e.to.node v e g.incoming)
    ∙ append_if (e.to.node == v) (edges_into g v) e rest

edges_from-link :
    (g : GraphIndex) (es : List Edge) (v : String)
    → edges_from (link g es) v ≡ edges_from g v ++ keep (λ e. e.from_.node == v) es
unfolding link
edges_from-link g [] v = sym (append-nil (edges_from g v))
edges_from-link g (e ∷ es) v =
    let rest = keep (λ (d : Edge). d.from_.node == v) es in
    edges_from-link
      (record g {
        incoming = append_at e.to.node e g.incoming;
        outgoing = append_at e.from_.node e g.outgoing;
      })
      es v
    ∙ ap (λ l. l ++ rest) (get_or-append_at e.from_.node v e g.outgoing)
    ∙ append_if (e.from_.node == v) (edges_from g v) e rest

link_keeps :
    (g : GraphIndex) (es : List Edge)
    → ((link g es).nodes ≡ g.nodes) × ((link g es).document ≡ g.document)
unfolding link
link_keeps g [] = (refl, refl)
link_keeps g (e ∷ es) =
    link_keeps
      (record g {
        incoming = append_at e.to.node e g.incoming;
        outgoing = append_at e.from_.node e g.outgoing;
      })
      es

-- What the rest of the development knows of an index: it is read off the document.
pub record IsIndexOf (document : PipelineDocument) (g : GraphIndex) : Type 0 where
  pub same : g.document ≡ document
  pub nodes : (v : String) → has g.nodes v ≡ contains (node_ids document) v
  pub unique : IsUnique g.nodes
  pub own :
      (v : String) (node : Node)
      → lookup v g.nodes ≡ some node
      → Memᴰ node document.nodes × (node.id ≡ v)
  pub into : (v : String) → edges_into g v ≡ keep (λ e. e.to.node == v) document.edges
  pub from : (v : String) → edges_from g v ≡ keep (λ e. e.from_.node == v) document.edges

-- The node table holds exactly the ids of the document, each once, and under an id a node of the
-- document with that id; and the two edge tables hold at
-- each id exactly the document's edges that end there and start there, in the document's order.
pub index_of-IsIndexOf : (document : PipelineDocument) → IsIndexOf document (index_of document)
unfolding index_of lookup
index_of-IsIndexOf document =
    let table = nodes_by_id document.nodes [] in
    let bare : GraphIndex = record {
      document = document;
      nodes = table;
      incoming = [];
      outgoing = [];
    } in
    let kept = link_keeps bare document.edges in
    record {
      same = kept.1;
      nodes = λ v. rw kept.0 (ground (arith, has-nodes_by_id document.nodes [] v));
      unique = rw kept.0 (nodes_by_id-IsUnique document.nodes [] empty-IsUnique);
      own = λ v node h. own-only v node document.nodes (rw kept.0 at h);
      into = edges_into-link bare document.edges;
      from = edges_from-link bare document.edges;
    }
