-- ===== src/Prelude/Sort.antt =====
-- Python's `sorted(xs, key=...)`: a stable sort by a text key, as insertion from the right.
use Prim.Native.String.{String, compare}
use mathlib.Core.Path.{◌≡◌, refl}
use mathlib.Core.Bool.{Bool}
use mathlib.Core.List.{List, [], ◌∷◌, Memᴰ}
use mathlib.Core.Logic.{inl, inr}
use native.Mathlib.Omega.{arith}
use text.Mathlib.Text.{is_le}
use sdp_studio.Prelude.Tests.{if◌then◌else◌, Bool-cases}
use sdp_studio.Prelude.Lists.{count}

-- `a <= b` on texts
abbrev pub le_text : String → String → Bool
le_text a b = is_le (compare a b)

module _ {ℓ} {A : Type ℓ} where
  -- One more item in front of two lists.
  under : (p x : A) (xs ys : List A) → Memᴰ p (x ∷ xs) → (Memᴰ p xs → Memᴰ p ys) → Memᴰ p (x ∷ ys)
  under p x xs ys (Memᴰ.head e) into = Memᴰ.head e
  under p x xs ys (Memᴰ.tail m) into = Memᴰ.tail (into m)

  swap :
      (p x y : A) (ys : List A) {zs : List A}
      → Memᴰ p (y ∷ zs)
      → (Memᴰ p zs → Memᴰ p (x ∷ ys))
      → Memᴰ p (x ∷ y ∷ ys)
  swap p x y ys (Memᴰ.head e) into = Memᴰ.tail (Memᴰ.head e)
  swap p x y ys (Memᴰ.tail m) into = under p x ys (y ∷ ys) (into m) (λ n. Memᴰ.tail n)

  swap_back :
      (p x y : A) (ys : List A) {zs : List A}
      → Memᴰ p (x ∷ y ∷ ys)
      → (Memᴰ p (x ∷ ys) → Memᴰ p zs)
      → Memᴰ p (y ∷ zs)
  swap_back p x y ys (Memᴰ.head e) into = Memᴰ.tail (into (Memᴰ.head e))
  swap_back p x y ys (Memᴰ.tail (Memᴰ.head e)) into = Memᴰ.head e
  swap_back p x y ys (Memᴰ.tail (Memᴰ.tail m)) into = Memᴰ.tail (into (Memᴰ.tail m))

module _ {ℓ} {A : Type ℓ} (key : A → String) where
  unfoldable pub place : A → List A → List A
  place x [] = x ∷ []
  place x (y ∷ ys) = if le_text (key x) (key y) then x ∷ y ∷ ys else y ∷ place x ys

  unfoldable pub sort_by : List A → List A
  unfolding place
  sort_by [] = []
  sort_by (x ∷ xs) = place x (sort_by xs)

  count-place : (p : A → Bool) (x : A) (ys : List A) → count p (place x ys) ≡ count p (x ∷ ys)
  unfolding place
  count-place p x [] = refl
  count-place p x (y ∷ ys) = ground (arith, count-place p x ys)

  pub count-sort_by : (p : A → Bool) (xs : List A) → count p (sort_by xs) ≡ count p xs
  unfolding sort_by
  count-sort_by p [] = refl
  count-sort_by p (x ∷ xs) = omega (arith, count-place p x (sort_by xs), count-sort_by p xs)

  mem_of_place : (p x : A) (ys : List A) → Memᴰ p (place x ys) → Memᴰ p (x ∷ ys)
  unfolding place
  mem_of_place p x [] m = m
  mem_of_place p x (y ∷ ys) m = elim (Bool-cases (le_text (key x) (key y))) [
    | inl first ↦ rw first at m
    | inr later ↦ swap p x y ys (rw later at m) (mem_of_place p x ys)
  ]

  place-mem : (p x : A) (ys : List A) → Memᴰ p (x ∷ ys) → Memᴰ p (place x ys)
  unfolding place
  place-mem p x [] m = m
  place-mem p x (y ∷ ys) m = elim (Bool-cases (le_text (key x) (key y))) [
    | inl first ↦ rw first m
    | inr later ↦ rw later (swap_back p x y ys m (place-mem p x ys))
  ]

  pub mem_of_sort_by : (p : A) (xs : List A) → Memᴰ p (sort_by xs) → Memᴰ p xs
  unfolding sort_by
  mem_of_sort_by p [] m = m
  mem_of_sort_by p (x ∷ xs) m =
      under p x (sort_by xs) xs (mem_of_place p x (sort_by xs) m) (mem_of_sort_by p xs)

  pub sort_by-mem : (p : A) (xs : List A) → Memᴰ p xs → Memᴰ p (sort_by xs)
  unfolding sort_by
  sort_by-mem p [] m = m
  sort_by-mem p (x ∷ xs) m =
      place-mem p x (sort_by xs) (under p x xs (sort_by xs) m (sort_by-mem p xs))

-- `sorted(texts)`
abbrev pub sort : List String → List String
sort = sort_by (λ x. x)
