-- ===== src/Graph/Validate/Clean.antt =====
-- Each check of a single node or edge reports no error exactly if the node or edge is sound.
use sdp_studio.Prelude.{
  inl, inr, Bool-cases, Option-cases, ◌↔◌, String, ◌≡◌, refl, sym, ap, ◌∙◌, Bool, true, false, not,
  ◌||◌, List, [], ◌∷◌, ◌++◌, map, Memᴰ, none, some, any, keep, any-false, false_of_any, contains,
  arith,
}
use sdp_studio.Prelude.Dict.{Dict, lookup}
use sdp_studio.Models.{Node, Edge, Problem}
use sdp_studio.Models.Problems.{has_errors, has_errors-append}
use sdp_studio.Operators.{Operator, is_missing, validate_config}
use sdp_studio.Graph.Index.{GraphIndex}
use sdp_studio.Graph.Secrets.{secret_literal_problems}
use sdp_studio.Graph.Secrets.Exposure.{secret_literal_problems_exact}
use sdp_studio.Graph.Validate.{
  node_problems, required_mode, modes_of, outputs_of, inputs_of, problem_if, endpoint_problems,
  edge_problems, gather, error_at,
}
use sdp_studio.Graph.Validate.Describe.{NodeSound, EdgeSound}

module _ {ℓ} {A : Type ℓ} (f : A → List Problem) where
  pub gather_member :
      (x : A) (xs : List A)
      → has_errors (gather f (x ∷ xs)) ≡ false
      → (has_errors (gather f xs) ≡ false → (y : A) → Memᴰ y xs → has_errors (f y) ≡ false)
      → (y : A) → Memᴰ y (x ∷ xs)
      → has_errors (f y) ≡ false
  gather_member x xs h rest y (Memᴰ.head e) =
      ap (λ z. has_errors (f z)) e ∙ ground (arith, has_errors-append (f x) (gather f xs))
  gather_member x xs h rest y (Memᴰ.tail m) =
      rest (ground (arith, has_errors-append (f x) (gather f xs))) y m

  pub gather_clean :
      (xs : List A)
      → (has_errors (gather f xs) ≡ false) ↔ ((x : A) → Memᴰ x xs → has_errors (f x) ≡ false)
  gather_clean [] = (λ h x m. elim m [ ], λ h. refl)
  gather_clean (x ∷ xs) = (
    λ h y m. gather_member x xs h (gather_clean xs).0 y m,
    λ h. ground (
      arith,
      has_errors-append (f x) (gather f xs),
      h x (Memᴰ.head refl),
      (gather_clean xs).1 (λ y m. h y (Memᴰ.tail m)),
    ),
  )

pub has_errors-map {ℓ} :
    {A : Type ℓ} (p : A → Bool) (q : Problem) (xs : List A)
    → has_errors (q ∷ []) ≡ true
    → has_errors (map (λ x. q) (keep p xs)) ≡ any p xs
has_errors-map p q [] h = refl
has_errors-map p q (x ∷ xs) h = elim (Bool-cases (p x)) [
  | inl here ↦ rw here (ground arith)
  | inr off ↦ rw off (has_errors-map p q xs h)
]

-- A test that no item passes.
pub none_pass {ℓ} :
    {A : Type ℓ} (p : A → Bool) (q : Problem) (xs : List A)
    → has_errors (q ∷ []) ≡ true
    → (has_errors (map (λ x. q) (keep p xs)) ≡ false) ↔ ((x : A) → Memᴰ x xs → p x ≡ false)
none_pass p q xs h = (
  λ clean x m. false_of_any p x xs (sym (has_errors-map p q xs h) ∙ clean) m,
  λ each. has_errors-map p q xs h ∙ any-false p xs each,
)

pub missing_clean :
    (op : Operator) (node : Node)
    → (has_errors (validate_config op node.config node.id) ≡ false)
      ↔ ((name : String) → Memᴰ name op.required → is_missing node.config name ≡ false)
unfolding validate_config
missing_clean op node =
    none_pass (is_missing node.config) (error_at "SDPS-OPERATOR-001" node.id) op.required refl

pub three_clean :
    (a b c : Bool) (edge : Edge)
    → (has_errors (
          problem_if (not a) (error_at "SDPS-GRAPH-011" edge.to.node)
          ++ (problem_if (not b) (error_at "SDPS-GRAPH-004" edge.from_.node)
              ++ problem_if (not c) (error_at "SDPS-GRAPH-005" edge.to.node)))
        ≡ false)
      ↔ ((a ≡ true) × (b ≡ true) × (c ≡ true))
three_clean true true true edge = (λ h. (refl, refl, refl), λ h. refl)
three_clean true true false edge = (λ h. cc, λ h. cc (h.2))
three_clean true false c edge = (λ h. cc, λ h. cc (h.1))
three_clean false b c edge = (λ h. cc, λ h. cc (h.0))

module _ (ops registry : Dict Operator) where
  pub rest : Node → List Problem
  rest node = elim (lookup node.type ops) [
    | none ↦ error_at "SDPS-GRAPH-010" node.id ∷ []
    | some _ ↦ elim (lookup node.type registry) [
      | none ↦ []
      | some definition ↦ validate_config definition node.config node.id
    ]
  ]

  pub node_problems_lem :
      (node : Node)
      → has_errors (node_problems ops registry node)
        ≡ has_errors (secret_literal_problems node.id node.config) || has_errors (rest node)
  unfolding node_problems rest
  node_problems_lem node =
      has_errors-append (secret_literal_problems node.id node.config) (rest node)

  pub rest_known :
      (node : Node)
      → has_errors (rest node) ≡ false
      → (op : Operator) × (lookup node.type ops ≡ some op)
  unfolding rest
  rest_known node h = elim (Option-cases (lookup node.type ops)) [
    | inl missing ↦ absurd (ground arith)
    | inr found ↦ found
  ]

  pub rest_configured :
      (node : Node)
      → has_errors (rest node) ≡ false
      → (definition : Operator) → lookup node.type registry ≡ some definition
      → has_errors (validate_config definition node.config node.id) ≡ false
  unfolding rest
  rest_configured node h definition found = elim (Option-cases (lookup node.type ops)) [
    | inl missing ↦ absurd (ground arith)
    | inr (op, known) ↦ rw (known, found, rest) at h
  ]

  pub rest_of_parts :
      (node : Node) (op : Operator)
      → lookup node.type ops ≡ some op
      → ((definition : Operator)
          → lookup node.type registry ≡ some definition
          → has_errors (validate_config definition node.config node.id) ≡ false)
      → has_errors (rest node) ≡ false
  unfolding rest
  rest_of_parts node op known configured = elim (Option-cases (lookup node.type registry)) [
    | inl missing ↦ rw (known, missing, rest)
    | inr (definition, found) ↦ rw (known, found, rest) (configured definition found)
  ]

  pub rest_clean :
      (node : Node)
      → (has_errors (rest node) ≡ false) ↔ (
          ((op : Operator) × (lookup node.type ops ≡ some op))
          × ((definition : Operator)
              → lookup node.type registry ≡ some definition
              → has_errors (validate_config definition node.config node.id) ≡ false))
  rest_clean node = (
    λ h. (rest_known node h, λ definition found. rest_configured node h definition found),
    λ (known, configured). rest_of_parts node known.0 known.1 configured,
  )

  pub halves :
      (node : Node)
      → has_errors (node_problems ops registry node) ≡ false
      → (has_errors (secret_literal_problems node.id node.config) ≡ false)
        × (has_errors (rest node) ≡ false)
  halves node h = (ground (arith, node_problems_lem node), ground (arith, node_problems_lem node))

  pub node_clean :
      (node : Node)
      → (has_errors (node_problems ops registry node) ≡ false) ↔ NodeSound ops registry node
  node_clean node = (
    λ h.
        let (safe, others) = halves node h in
        let (known, configured) = (rest_clean node).0 others in
        record {
          known = known;
          covered = λ x. cc ((secret_literal_problems_exact node.id node.config).1 x, safe);
          configured =
              λ definition found. (missing_clean definition node).0 (configured definition found);
        },
    λ s.
        let others = (rest_clean node).1 (
          s.known,
          λ definition found. (missing_clean definition node).1 (s.configured definition found),
        ) in
        elim (Bool-cases (has_errors (secret_literal_problems node.id node.config))) [
          | inl leak ↦
              absurd (s.covered ((secret_literal_problems_exact node.id node.config).0 leak))
          | inr safe ↦ ground (arith, node_problems_lem node, others, safe)
        ],
  )

  pub endpoint_clean :
      (edge : Edge) (source target : Node)
      → (has_errors (endpoint_problems ops edge source target) ≡ false) ↔ (
          (contains (modes_of (lookup target.type ops)) (required_mode source) ≡ true)
          × (contains (outputs_of (lookup source.type ops)) edge.from_.port ≡ true)
          × (contains (inputs_of (lookup target.type ops)) edge.to.port ≡ true))
  unfolding endpoint_problems
  endpoint_clean edge source target =
      three_clean (contains (modes_of (lookup target.type ops)) (required_mode source))
        (contains (outputs_of (lookup source.type ops)) edge.from_.port)
        (contains (inputs_of (lookup target.type ops)) edge.to.port) edge

  pub edge_clean :
      (g : GraphIndex) (edge : Edge)
      → (has_errors (edge_problems ops g edge) ≡ false) ↔ EdgeSound ops g.nodes edge
  unfolding edge_problems
  edge_clean g edge = elim (Option-cases (lookup edge.from_.node g.nodes)) [
    | inl gone ↦ (λ h. absurd (ground arith), λ s. absurd (cc (gone, s.from_source)))
    | inr (source, from) ↦ elim (Option-cases (lookup edge.to.node g.nodes)) [
      | inl gone ↦ (λ h. absurd (ground arith), λ s. absurd (cc (gone, s.to_target)))
      | inr (target, to) ↦ (
        λ h.
            let (mode, output, input) =
              (endpoint_clean edge source target).0 (rw (from, to, edge_problems) at h) in
            record {
              source = source;
              target = target;
              from_source = from;
              to_target = to;
              mode = mode;
              output = output;
              input = input;
            },
        λ s.
            rw (s.from_source, s.to_target, edge_problems)
              ((endpoint_clean edge s.source s.target).1 (s.mode, s.output, s.input)),
      )
    ]
  ]
