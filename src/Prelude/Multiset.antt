-- ===== src/Prelude/Multiset.antt =====
-- Lists of texts compared by how often each text stands in them.
use Prim.Native.Nat.{ℕ, suc, ◌+◌, ◌≤◌, ◌<◌}
use Prim.Native.String.{String}
use mathlib.Core.Path.{◌≡◌, refl}
use mathlib.Core.Bool.{true, false, ◌||◌}
use mathlib.Core.List.{List, [], ◌∷◌, ◌++◌}
use native.Mathlib.Omega.{arith}
use text.Mathlib.Text.{◌==◌}
use text.Mathlib.TextEquality.{eq_iff}
use text.Mathlib.TextPositions.{eq_refl}
use sdp_studio.Prelude.Tests.{if◌then◌else◌}
use sdp_studio.Prelude.Lists.{length, occ, contains}

-- without the first `v`
erase : String → List String → List String
erase v [] = []
erase v (x ∷ xs) = let rest = erase v xs in if x == v then xs else x ∷ rest

occ-erase :
    (v w : String) (xs : List String)
    → 0 < occ v xs
    → occ w xs ≡ (if v == w then 1 else 0) + occ w (erase v xs)
unfolding erase
occ-erase v w [] h = absurd (omega arith)
occ-erase v w (x ∷ xs) h = ground (arith, occ-erase v w xs, eq_iff x v, eq_iff x w, eq_iff v w)

length-erase :
    (v : String) (xs : List String) → 0 < occ v xs → length xs ≡ suc (length (erase v xs))
unfolding erase
length-erase v [] h = absurd (omega arith)
length-erase v (x ∷ xs) h = ground (arith, length-erase v xs)

abbrev pub IsSubMultiset : List String → List String → Type 0
IsSubMultiset xs ys = (v : String) → occ v xs ≤ occ v ys

IsSubMultiset-tail :
    (x : String) (xs ys : List String)
    → IsSubMultiset (x ∷ xs) ys
    → (0 < occ x ys) × IsSubMultiset xs (erase x ys)
IsSubMultiset-tail x xs ys h =
    (ground (arith, h x, eq_refl x), λ v. ground (arith, h v, h x, eq_refl x, occ-erase x v ys))

pub length-IsSubMultiset : (xs ys : List String) → IsSubMultiset xs ys → length xs ≤ length ys
length-IsSubMultiset [] ys h = omega arith
length-IsSubMultiset (x ∷ xs) ys h =
    let (pos, rest) = IsSubMultiset-tail x xs ys h in
    omega (arith, length-erase x ys pos, length-IsSubMultiset xs (erase x ys) rest)

-- A sub-multiset of the same length is the whole.
pub IsSubMultiset-antisymm :
    (xs ys : List String)
    → IsSubMultiset xs ys
    → length xs ≡ length ys
    → (v : String) → occ v ys ≤ occ v xs
IsSubMultiset-antisymm [] [] h e v = omega arith
IsSubMultiset-antisymm [] (y ∷ ys) h e v = absurd (omega arith)
IsSubMultiset-antisymm (x ∷ xs) ys h e v =
    let (pos, rest) = IsSubMultiset-tail x xs ys h in
    ground (
      arith,
      length-erase x ys pos,
      occ-erase x v ys pos,
      IsSubMultiset-antisymm xs (erase x ys) rest (omega (arith, length-erase x ys pos)) v,
    )

-- The place of the first `v`, or the length.
pub position : String → List String → ℕ
position v [] = 0
position v (x ∷ xs) = if x == v then 0 else suc (position v xs)

pub contains-append :
    (xs ys : List String) (v : String) → contains (xs ++ ys) v ≡ contains xs v || contains ys v
contains-append [] ys v = refl
contains-append (x ∷ xs) ys v = ground (arith, contains-append xs ys v)

pub position-append_left :
    (v : String) (xs ys : List String)
    → contains xs v ≡ true
    → position v (xs ++ ys) ≡ position v xs
unfolding position
position-append_left v [] ys h = cc
position-append_left v (x ∷ xs) ys h = ground (arith, position-append_left v xs ys)

pub position-lt-length :
    (v : String) (xs : List String) → contains xs v ≡ true → position v xs < length xs
unfolding position
position-lt-length v [] h = cc
position-lt-length v (x ∷ xs) h = ground (arith, position-lt-length v xs)

pub position-append_right :
    (v : String) (xs ys : List String)
    → contains xs v ≡ false
    → position v (xs ++ v ∷ ys) ≡ length xs
unfolding position
position-append_right v [] ys h = ground (arith, eq_refl v)
position-append_right v (x ∷ xs) ys h = ground (arith, position-append_right v xs ys)

-- What stands before the end of a first part stands in that part.
pub contains-of_position :
    (u : String) (pre rest : List String)
    → position u (pre ++ rest) < length pre
    → contains pre u ≡ true
unfolding position
contains-of_position u [] rest h = absurd (omega arith)
contains-of_position u (x ∷ pre) rest h = ground (arith, contains-of_position u pre rest)
