-- ===== src/Reconcile/Markers.antt =====
-- `parse_ownership_markers` of python/sdpstudio_codegen/reconcile.py: the regions that comments of the
-- generated code mark, on the lines of the code.
use Prim.Native.Char.{code}
use sdp_studio.Prelude.{
  ℕ, suc, ◌+◌, ◌≤◌, ◌<◌, String, Bool, true, false, List, [], ◌∷◌, ◌++◌, Option, none, some, ◌==◌,
  if◌then◌else◌, length, arith,
}
use sdp_studio.Prelude.Text.{is_space, lstrip, rstrip, strip, after_prefix}
use sdp_studio.Reconcile.Region.{Ownership, visual, custom, OwnershipRegion}

infixl 1 ◌>>=◌
abbrev ◌>>=◌ {ℓ κ} : {A : Type ℓ} {B : Type κ} → Option A → (A → Option B) → Option B
none >>= f = none
some a >>= f = f a

-- `\s+`: what follows one or more spaces
unfoldable pub after_spaces : String → Option String
after_spaces String.[] = none
after_spaces (String.◌∷◌ c s) = if is_space (code c) then some (lstrip s) else none

-- `[^\s]+`: the word at the start, and what follows it
unfoldable pub word : String → String × String
word String.[] = (String.[], String.[])
word (String.◌∷◌ c s) =
    let rest = word s in
    if is_space (code c) then (String.[], String.◌∷◌ c s) else (String.◌∷◌ c rest.0, rest.1)

ownership_of : String → Option Ownership
ownership_of s = if s == "visual" then some visual else if s == "custom" then some custom else none

-- `_OWNERSHIP_REGION.match(line)`
unfoldable pub marker_of : String → Option (String × Ownership)
unfolding after_spaces word ownership_of lstrip rstrip after_prefix
marker_of line = do
  a ← after_prefix "#" (lstrip line)
  b ← after_prefix "sdpstudio:region" (lstrip a)
  c ← after_spaces b
  d ← after_prefix "node=" c
  e ← after_spaces (word d).1
  f ← after_prefix "ownership=" e
  o ← ownership_of (rstrip f)
  if (word d).0 == "" then none else some ((word d).0, o)

abbrev Open : Type 0
Open = Option (ℕ × String × Ownership)

-- `line.strip() == "# sdpstudio:endregion"`
unfoldable pub is_end : String → Bool
unfolding strip
is_end line = strip line == "# sdpstudio:endregion"

abbrev closed_at : ℕ → ℕ × String × Ownership → OwnershipRegion
closed_at number (start, node_id, ownership) = record {
  start_line = start;
  end_line = number;
  ownership = ownership;
  node_id = some node_id;
}

-- One line: the region that it closes, and what is open after it.
unfoldable pub on_line : ℕ → Option (String × Ownership) → Bool → Open → List OwnershipRegion × Open
on_line number (some (node_id, ownership)) ends opened = ([], some (number, node_id, ownership))
on_line number none ends none = ([], none)
on_line number none true (some started) = (closed_at number started ∷ [], none)
on_line number none false (some started) = ([], some started)

-- The loop over the lines, from the line of that number.
unfoldable pub regions_from : ℕ → Open → List String → List OwnershipRegion
unfolding marker_of is_end on_line
regions_from number opened [] = []
regions_from number opened (line ∷ lines) =
    let r = on_line number (marker_of line) (is_end line) opened in
    r.0 ++ regions_from (suc number) r.1 lines

unfoldable pub parse_ownership_markers : List String → List OwnershipRegion
unfolding regions_from
parse_ownership_markers lines = regions_from 1 none lines

-- The regions stand one after the other, from a first line to a last.
abbrev pub InOrder : (low high : ℕ) → List OwnershipRegion → Type 0
InOrder low high [] = Unit
InOrder low high (r ∷ rs) =
    (low ≤ r.start_line)
    × (r.start_line < r.end_line)
    × (r.end_line ≤ high)
    × InOrder (suc r.end_line) high rs

abbrev Begun : ℕ → ℕ → Open → Type 0
Begun low number none = low ≤ number
Begun low number (some (start, _, _)) = (low ≤ start) × (start < number)

line-InOrder :
    (low number high : ℕ) (marker : Option (String × Ownership)) (ends : Bool) (opened : Open)
    (rest : Open → List OwnershipRegion)
    → number ≤ high
    → Begun low number opened
    → ((l : ℕ) (o : Open) → Begun l (suc number) o → InOrder l high (rest o))
    → InOrder low high
        ((on_line number marker ends opened).0 ++ rest (on_line number marker ends opened).1)
unfolding on_line
line-InOrder low number high (some (n, o)) ends none rest e h later =
    later low (some (number, n, o)) (h, omega arith)
line-InOrder low number high (some (n, o)) ends (some (s, _, _)) rest e h later =
    later low (some (number, n, o)) (omega arith, omega arith)
line-InOrder low number high none ends none rest e h later = later low none (omega arith)
line-InOrder low number high none true (some (s, n, o)) rest e (a, b) later =
    (a, b, e, later (suc number) none (omega arith))
line-InOrder low number high none false (some (s, n, o)) rest e (a, b) later =
    later low (some (s, n, o)) (a, omega arith)

regions_from-InOrder :
    (low number high : ℕ) (opened : Open) (lines : List String)
    → number + length lines ≤ suc high
    → Begun low number opened
    → InOrder low high (regions_from number opened lines)
unfolding regions_from
regions_from-InOrder low number high opened [] e h = tt
regions_from-InOrder low number high opened (line ∷ lines) e h =
    line-InOrder low number high (marker_of line) (is_end line) opened
      (λ o. regions_from (suc number) o lines) (omega arith) h
      (λ l o. regions_from-InOrder l (suc number) high o lines (omega arith))

-- The regions that the markers of a text make are in order, do not overlap, each ends below the line
-- at which it starts, and all lie on the lines of the text.
pub parse_ownership_markers-InOrder :
    (lines : List String) → InOrder 1 (length lines) (parse_ownership_markers lines)
unfolding parse_ownership_markers
parse_ownership_markers-InOrder lines =
    regions_from-InOrder 1 1 (length lines) none lines (omega arith) (omega arith)
