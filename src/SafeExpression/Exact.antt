-- ===== src/SafeExpression/Exact.antt =====
-- The walk visits every node of the tree, and refuses it exactly if the grammar does not permit one.
use mathlib.Core.List.Memᴰ.{append_left, append_right, append_cases}
use sdp_studio.Prelude.{
  ℕ, zero, suc, ◌+◌, ◌≤◌, String, ◌≡◌, refl, ◌↔◌, ◌⊎◌, inl, inr, Bool-cases, true, List, [], ◌∷◌,
  ◌++◌, Memᴰ, none, some, Option-cases, subst, ap, ◌∙◌, sym, arith, eq_iff, contains,
}
use sdp_studio.SafeExpression.{
  Kind, CallKind, returns, raises, Refusal, raised, is_allowed_node, call_kind, check_class, check,
  accepted, refused, walk, size, sizes, validate_custom_dataframe_expression,
}
use sdp_studio.SafeExpression.Allowed.{allowed_names}
use sdp_studio.SafeExpression.Syntax.{
  Ast, Asts, constant, name, attribute, call, bin_op, node, end, item, items, children,
}
use sdp_studio.SafeExpression.Grammar.{
  IsPermitted, literal, known, public_, chain, operation, plain_node, IsAllowed, Within, here,
  below,
}
use sdp_studio.SafeExpression.Calls.{call_kind_exact}

raised-none : (r : CallKind) → raised r ≡ none → (k : Kind) × (r ≡ returns k)
raised-none (returns k) h = (k, refl)
raised-none (raises x) h = cc

is_known : (id : String) → contains allowed_names id ≡ true → (id ≡ "df") ⊎ (id ≡ "F")
is_known id h = ground (arith, eq_iff "df" id, eq_iff "F" id)

known_is : (id : String) → (id ≡ "df") ⊎ (id ≡ "F") → contains allowed_names id ≡ true
known_is id h = ground (arith, eq_iff "df" id, eq_iff "F" id)

IsPermitted-of : (n : Ast) → check_class n ≡ none → IsPermitted n
unfolding check_class
IsPermitted-of (constant c) h = literal
IsPermitted-of (name id ctx) h = known (is_known id (ground arith))
IsPermitted-of (attribute v attr ctx) h = public_ (ground arith)
IsPermitted-of (call f a k) h =
    let (kind, e) = raised-none (call_kind f a k) h in chain ((call_kind_exact f a k kind).0 e)
IsPermitted-of (bin_op l o r) h = operation
IsPermitted-of (node c fs) h = plain_node

of_permitted : (n : Ast) → IsPermitted n → check_class n ≡ none
unfolding check_class
of_permitted (constant c) literal = refl
of_permitted (name id ctx) (known h) = rw (known_is id h) refl
of_permitted (attribute v attr ctx) (public_ h) = rw h refl
of_permitted (call f a k) (chain {k = kind} c) = rw ((call_kind_exact f a k kind).1 c) refl
of_permitted (bin_op l o r) operation = refl
of_permitted (node c fs) plain_node = refl

-- The loop's body raises nothing exactly on the nodes that are allowed.
pub check_exact : (n : Ast) → (check n ≡ none) ↔ IsAllowed n
unfolding check
check_exact n = (
  λ h. elim (Bool-cases (is_allowed_node n)) [
    | inl ok ↦ record { class = ok; permitted = IsPermitted-of n (rw ok at h) }
    | inr bad ↦ ground arith
  ],
  λ a. rw a.class (of_permitted n a.permitted),
)

-- The nodes that wait, with what is below them.
abbrev total : List Ast → ℕ
total [] = 0
total (n ∷ todo) = size n + total todo

total-append : (xs ys : List Ast) → total (xs ++ ys) ≡ total xs + total ys
total-append [] ys = omega arith
total-append (x ∷ xs) ys = omega (arith, total-append xs ys)

total-items : (xs : Asts) (rest : List Ast) → total (items xs rest) ≡ sizes xs + total rest
unfolding sizes
total-items end rest = omega arith
total-items (item x xs) rest = omega (arith, total-items xs rest)

size_lem : (n : Ast) → size n ≡ suc (total (children n))
unfolding size sizes
size_lem (constant c) = refl
size_lem (name id ctx) = omega arith
size_lem (attribute v attr ctx) = omega arith
size_lem (call f a k) = omega (arith, total-items a (items k []), total-items k [])
size_lem (bin_op l o r) = omega arith
size_lem (node c fs) = omega (arith, total-items fs [])

-- `x` stands in one of the trees.
record Waits (x : Ast) (todo : List Ast) : Type 0 where
  tree : Ast
  listed : Memᴰ tree todo
  within : Within x tree

Waits-round :
    {x : Ast} (n : Ast) (todo : List Ast) → Waits x (todo ++ children n) → Waits x (n ∷ todo)
Waits-round n todo w = elim (append_cases todo w.listed) [
  | inl m ↦ record { tree = w.tree; listed = Memᴰ.tail m; within = w.within }
  | inr m ↦ record { tree = n; listed = Memᴰ.head refl; within = below m w.within }
]

Clean : List Ast → Type 0
Clean todo = (x : Ast) (t : Ast) → Memᴰ t todo → Within x t → check x ≡ none

Clean-here :
    (n : Ast) (todo : List Ast)
    → check n ≡ none
    → Clean (todo ++ children n)
    → (x t : Ast) → t ≡ n
    → Within x t
    → check x ≡ none
unfolding Clean
Clean-here n todo e h x t q (here p) = ap check (p ∙ q) ∙ e
Clean-here n todo e h x t q (below {c} m w) =
    h x c (append_right todo (subst (λ u. Memᴰ c (children u)) q m)) w

Clean-round :
    (n : Ast) (todo : List Ast)
    → check n ≡ none
    → Clean (todo ++ children n)
    → (x t : Ast) → Memᴰ t (n ∷ todo)
    → Within x t
    → check x ≡ none
unfolding Clean
Clean-round n todo e h x t (Memᴰ.head q) w = Clean-here n todo e h x t q w
Clean-round n todo e h x t (Memᴰ.tail m) w = h x t (append_left (children n) m) w

walk_result :
    (fuel : ℕ) (todo : List Ast)
    → total todo ≤ fuel
    → ((walk fuel todo ≡ accepted) × Clean todo)
      ⊎ ((r : Refusal) × (x : Ast) × (walk fuel todo ≡ refused r)
          × Waits x todo
          × (check x ≡ some r))
unfolding walk Clean
walk_result zero [] e = inl (refl, λ x t m w. elim m [ ])
walk_result zero (n ∷ todo) e = absurd (omega (arith, size_lem n))
walk_result (suc fuel) [] e = inl (refl, λ x t m w. elim m [ ])
walk_result (suc fuel) (n ∷ todo) e = elim (Option-cases (check n)) [
  | inl fine ↦
      elim (walk_result fuel (todo ++ children n)
        (omega (arith, size_lem n, total-append todo (children n)))) [
          | inl (ends, clean) ↦ inl (rw (fine, walk) ends, Clean-round n todo fine clean)
          | inr (r, x, ends, w, why) ↦ inr (r, x, rw (fine, walk) ends, Waits-round n todo w, why)
        ]
  | inr (r, bad) ↦ inr (
    r,
    n,
    rw (bad, walk) refl,
    record { tree = n; listed = Memᴰ.head refl; within = here refl },
    bad,
  )
]

in_only : {x t : Ast} → Waits x (t ∷ []) → Within x t
in_only {x} w = elim w.listed [
  | Memᴰ.head e ↦ subst (Within x) e w.within
  | Memᴰ.tail m ↦ elim m [ ]
]

accepted_refused : (r : Refusal) → ¬ (accepted ≡ refused r)
accepted_refused r = λ h. cc

none-some : (r : Refusal) → ¬ (none ≡ some r)
none-some r = λ h. cc

module _ (body : Ast) where
  abbrev tree : Ast
  tree = node "Expression" (item body end)

  tree-IsAllowed : IsAllowed tree
  tree-IsAllowed = record { class = unfold is_allowed_node in refl; permitted = plain_node }

  in_body : (x : Ast) → ((y : Ast) → Within y body → IsAllowed y) → Within x tree → IsAllowed x
  in_body x h (here e) = subst IsAllowed (sym e) tree-IsAllowed
  in_body x h (below {c} (Memᴰ.head e) w) = h x (subst (Within x) e w)
  in_body x h (below (Memᴰ.tail m) w) = elim m [ ]

-- The validation ends: it accepts a tree in which the check of no node gives a reason to refuse it, or
-- it refuses the tree with the reason that the check of a node in it gives. It never runs out of rounds.
pub validate_custom_dataframe_expression_total :
    (body : Ast)
    → ((validate_custom_dataframe_expression body ≡ accepted)
        × ((x : Ast) → Within x (node "Expression" (item body end)) → check x ≡ none))
      ⊎ ((r : Refusal) × (x : Ast) × (validate_custom_dataframe_expression body ≡ refused r)
          × Within x (node "Expression" (item body end))
          × (check x ≡ some r))
unfolding validate_custom_dataframe_expression Clean
validate_custom_dataframe_expression_total body =
    let whole = tree body in
    elim (walk_result (size whole) (whole ∷ []) (omega arith)) [
      | inl (ends, clean) ↦ inl (ends, λ x w. clean x whole (Memᴰ.head refl) w)
      | inr (r, x, ends, w, why) ↦ inr (r, x, ends, in_only w, why)
    ]

-- The validation accepts an expression exactly if each node in it, itself included, is of an allowed
-- class and permitted by the grammar: names `df` and `F`, public attributes, calls that are chains
-- from `F` or `df` through the methods and functions listed, and for `filter` and `where` of a
-- dataframe one positional argument that is no text and no `+` or `%` of texts.
pub validate_custom_dataframe_expression_exact :
    (body : Ast)
    → (validate_custom_dataframe_expression body ≡ accepted)
      ↔ ((x : Ast) → Within x body → IsAllowed x)
unfolding validate_custom_dataframe_expression Clean
validate_custom_dataframe_expression_exact body =
    let whole = tree body in
    elim (walk_result (size whole) (whole ∷ []) (omega arith)) [
      | inl (ends, clean) ↦ (
        λ h x w. (check_exact x).0 (clean x whole (Memᴰ.head refl) (below (Memᴰ.head refl) w)),
        λ h. ends,
      )
      | inr (r, x, ends, w, why) ↦ (
        λ h. absurd (accepted_refused r (sym h ∙ ends)),
        λ h. absurd (none-some r (sym ((check_exact x).1 (in_body body x h (in_only w))) ∙ why)),
      )
    ]
