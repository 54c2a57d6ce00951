-- ===== src/Reconcile/Variables.antt =====
-- The variables of generated code. `_var` of python/sdpstudio_codegen/python_backend.py names the
-- variable of a node by the last eight letters and digits of its id, `reconcile_python` by the whole
-- id. A character is lowered as ASCII: of an id no other is left, and a port has a known name.
use Prim.Native.Char.{code}
use sdp_studio.Prelude.Text.{strip}
use sdp_studio.Prelude.{
  ◌++◌, ◌⊎◌, any, not, true, eqb, Option, length-append, ◌∙◌, ℕ, zero, suc, ◌+◌, ◌-◌, ◌≤◌, ◌<◌,
  String, ◌≡◌, refl, ap, ◌∙◌, Bool, false, ◌&&◌, ◌||◌, List, [], ◌∷◌, none, some, Memᴰ, inl, inr,
  Bool-cases, leb, length, length-map, map, drop, if◌then◌else◌, arith, ◌==◌, eq_iff,
}
use sdp_studio.Models.{Node}
use sdp_studio.Reconcile.Copies.{with_underscores, variable_of, node_for, State}
use sdp_studio.Reconcile.Syntax.{Expr, name, assign, returns, Statement}
use sdp_studio.Reconcile.Statements.{read_assignment, read_form, read_statement, read_body, ◌>>=◌}

-- `[A-Za-z0-9]`
unfoldable pub is_alphanumeric : ℕ → Bool
is_alphanumeric c = leb 48 c && leb c 57 || leb 65 c && leb c 90 || leb 97 c && leb c 122

unfoldable pub lowered : ℕ → ℕ
lowered c = if leb 65 c && leb c 90 then c + 32 else c

-- The code points that `re.sub(r"[^A-Za-z0-9]", "", node_id)` leaves.
unfoldable pub cleaned : String → List ℕ
unfolding is_alphanumeric
cleaned String.[] = []
cleaned (String.◌∷◌ c s) =
    let rest = cleaned s in if is_alphanumeric (code c) then code c ∷ rest else rest

abbrev pub code_points : String → List ℕ
code_points String.[] = []
code_points (String.◌∷◌ c s) = code c ∷ code_points s

-- `\w`; every character beyond ASCII is taken for a letter.
is_word : ℕ → Bool
unfolding is_alphanumeric
is_word c = is_alphanumeric c || eqb c 95 || leb 128 c

other_next : List ℕ → Bool
unfolding is_word
other_next [] = false
other_next (c ∷ cs) = not (is_word c)

-- `re.sub(r"\W+", "_", value)`
unfoldable pub collapsed : List ℕ → List ℕ
unfolding is_word other_next
collapsed [] = []
collapsed (c ∷ cs) =
    let rest = collapsed cs in
    if is_word c then c ∷ rest else if other_next cs then rest else 95 ∷ rest

same_points : List ℕ → List ℕ → Bool
same_points [] [] = true
same_points (c ∷ cs) (d ∷ ds) = let rest = same_points cs ds in eqb c d && rest
same_points _ _ = false

-- `keyword.kwlist`
keywords : List String
keywords =
    "False" ∷ "None" ∷ "True" ∷ "and" ∷ "as" ∷ "assert" ∷ "async" ∷ "await" ∷ "break" ∷ "class"
    ∷ "continue" ∷ "def" ∷ "del" ∷ "elif" ∷ "else" ∷ "except" ∷ "finally" ∷ "for" ∷ "from"
    ∷ "global" ∷ "if" ∷ "import" ∷ "in" ∷ "is" ∷ "lambda" ∷ "nonlocal" ∷ "not" ∷ "or" ∷ "pass"
    ∷ "raise" ∷ "return" ∷ "try" ∷ "while" ∷ "with" ∷ "yield" ∷ []

starts_with_digit : List ℕ → Bool
starts_with_digit [] = false
starts_with_digit (c ∷ cs) = leb 48 c && leb c 57

or_dataset : List ℕ → List ℕ
or_dataset [] = code_points "dataset"
or_dataset (c ∷ cs) = c ∷ cs

-- `_identifier`
unfoldable pub identifier : String → List ℕ
unfolding collapsed same_points keywords starts_with_digit or_dataset strip
identifier value =
    let cleaned = or_dataset (collapsed (code_points (strip value))) in
    if starts_with_digit cleaned || any (λ k. same_points (code_points k) cleaned) keywords
    then code_points "svp_" ++ cleaned
    else cleaned

-- What a port other than `out` adds.
unfoldable pub suffix_of : Option String → List ℕ
unfolding identifier lowered
suffix_of none = []
suffix_of (some port) =
    if port == "" || port == "out" then [] else 95 ∷ map lowered (identifier port)

-- `_var`
unfoldable pub generated_variable : String → Option String → List ℕ
unfolding cleaned lowered suffix_of
generated_variable node_id port =
    110 ∷ 95 ∷ map lowered (drop (length (cleaned node_id) - 8) (cleaned node_id)) ++ suffix_of port

length-drop : (n : ℕ) (xs : List ℕ) → length (drop n xs) ≡ length xs - n
length-drop zero xs = omega arith
length-drop (suc n) [] = omega arith
length-drop (suc n) (x ∷ xs) = omega (arith, length-drop n xs)

base-bound : (id : String) → length (map lowered (drop (length (cleaned id) - 8) (cleaned id))) ≤ 8
base-bound id = omega (
  arith,
  length-map (drop (length (cleaned id) - 8) (cleaned id)) lowered,
  length-drop (length (cleaned id) - 8) (cleaned id),
)

any-append : (p : ℕ → Bool) (xs ys : List ℕ) → any p (xs ++ ys) ≡ any p xs || any p ys
any-append p [] ys = refl
any-append p (x ∷ xs) ys = ground (arith, any-append p xs ys)

-- A port adds nothing, or an underscore and more.
suffix-cases :
    (port : Option String) → (suffix_of port ≡ []) ⊎ (any (λ c. eqb c 95) (suffix_of port) ≡ true)
unfolding suffix_of
suffix-cases none = inl refl
suffix-cases (some port) = elim (Bool-cases (port == "" || port == "out")) [
  | inl plain ↦ inl (rw plain refl)
  | inr named ↦ inr (rw named refl)
]

any-with_underscores :
    (s : String)
    → any (λ c. eqb c 95) (code_points (with_underscores s))
      ≡ any (λ c. eqb c 45 || eqb c 95) (code_points s)
unfolding with_underscores
any-with_underscores String.[] = refl
any-with_underscores (String.◌∷◌ c s) = ground (arith, any-with_underscores s)

length-with_underscores :
    (s : String) → length (code_points (with_underscores s)) ≡ length (code_points s)
unfolding with_underscores
length-with_underscores String.[] = refl
length-with_underscores (String.◌∷◌ c s) = ground (arith, length-with_underscores s)

length-variable_of :
    (id : String) → length (code_points (variable_of id)) ≡ 2 + length (code_points id)
unfolding variable_of
length-variable_of id = omega (arith, length-with_underscores id)

-- The id of a node of the document is longer than eight characters, and neither `-` nor `_` is in it:
-- so are the ids that `new_ulid` makes.
abbrev pub LongIds : List Node → Type 0
LongIds ns =
    (n : Node)
    → Memᴰ n ns
    → (8 < length (code_points n.id)) × (any (λ c. eqb c 45 || eqb c 95) (code_points n.id) ≡ false)

-- After `n_`.
abbrev rest_of : List ℕ → List ℕ
rest_of cs = drop 2 cs

unlike :
    (variable id other : String) (port : Option String)
    → code_points variable ≡ generated_variable id port
    → 8 < length (code_points other)
    → any (λ c. eqb c 45 || eqb c 95) (code_points other) ≡ false
    → variable_of other == variable ≡ false
unfolding variable_of generated_variable
unlike variable id other port e long plain = elim (Bool-cases (variable_of other == variable)) [
  | inr off ↦ off
  | inl same ↦
      let base = map lowered (drop (length (cleaned id) - 8) (cleaned id)) in
      let equal : code_points (with_underscores other) ≡ base ++ suffix_of port =
        ap rest_of (ap code_points ((eq_iff (variable_of other) variable).0 same) ∙ e) in
      elim (suffix-cases port) [
        | inl bare ↦ absurd (
            omega (
              arith,
              long,
              length-with_underscores other,
              ap length equal,
              length-append base (suffix_of port),
              ap length bare,
              base-bound id,
            ))
        | inr marked ↦ absurd (
            ground (
              arith,
              plain,
              any-with_underscores other,
              ap (any (λ c. eqb c 95)) equal,
              any-append (λ c. eqb c 95) base (suffix_of port),
              marked,
            ))
      ]
]

missed :
    (variable id : String) (port : Option String) (ns : List Node)
    → code_points variable ≡ generated_variable id port
    → LongIds ns
    → node_for variable ns ≡ none
unfolding node_for
missed variable id port [] e long = refl
missed variable id port (n ∷ ns) e long =
    let rest = missed variable id port ns e (λ w m. long w (Memᴰ.tail m)) in
    let (longer, plain) = long n (Memᴰ.head refl) in
    let other = unlike variable id n.id port e longer plain in rw (rest, node_for, other) refl

-- An assignment to one variable, which is the variable that the code generator gives to some port of
-- some id, or a `return`.
abbrev pub IsGenerated : Statement → Type 0
IsGenerated s =
    ((variable : String) × (id : String) × (port : Option String) × (value : Expr) × (s.form
        ≡ assign (name variable ∷ []) value)
      × (code_points variable ≡ generated_variable id port))
    ⊎ (s.form ≡ returns)

passed_over :
    (ns : List Node) (s : Statement) (state : State)
    → LongIds ns
    → IsGenerated s
    → read_statement ns s state ≡ some state
unfolding read_statement
passed_over ns s state long (inl (variable, id, port, value, form, e)) =
    rw (form, missed variable id port ns e long, read_assignment, read_form, read_statement) refl
passed_over ns s state long (inr form) = rw (form, read_form, read_statement) refl

-- If the ids of all nodes are longer than eight characters and without `-` and `_`, reading the body of
-- an output function that assigns to generated variables and returns changes nothing, whatever it
-- assigns: no configuration, no region and no problem.
pub read_body-passes_over :
    (ns : List Node) (body : List Statement) (state : State)
    → LongIds ns
    → ((s : Statement) → Memᴰ s body → IsGenerated s)
    → read_body ns body state ≡ some state
unfolding read_body
read_body-passes_over ns [] state long generated = refl
read_body-passes_over ns (s ∷ body) state long generated =
    ap (λ o. o >>= read_body ns body) (passed_over ns s state long (generated s (Memᴰ.head refl)))
    ∙ read_body-passes_over ns body state long (λ t m. generated t (Memᴰ.tail m))
