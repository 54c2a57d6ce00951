-- ===== src/Prelude/Lists.antt =====
-- Lists measured by native numbers. `count` and `occ` stand for Python's multisets of items.
use Prim.Native.Nat.{ℕ, zero, suc, ◌+◌, ◌≤◌, ◌<◌}
use Prim.Native.String.{String}
use mathlib.Core.Path.{◌≡◌, refl, ap, sym, ◌∙◌, subst}
use mathlib.Core.Logic.{inl, inr}
use mathlib.Core.Bool.{Bool, true, false, ◌&&◌, ◌||◌}
use mathlib.Core.List.{List, [], ◌∷◌, ◌++◌, map, Memᴰ}
use native.Mathlib.Omega.{arith}
use text.Mathlib.Text.{◌==◌}
use text.Mathlib.TextEquality.{eq_iff}
use sdp_studio.Prelude.Tests.{Bool-cases, ltb, if◌then◌else◌}

module _ {ℓ} {A : Type ℓ} where
  abbrev pub length : List A → ℕ
  length [] = 0
  length (x ∷ xs) = suc (length xs)

  abbrev pub take : ℕ → List A → List A
  take zero xs = []
  take (suc n) [] = []
  take (suc n) (x ∷ xs) = x ∷ take n xs

  abbrev pub drop : ℕ → List A → List A
  drop zero xs = xs
  drop (suc n) [] = []
  drop (suc n) (x ∷ xs) = drop n xs

  -- `[x for x in xs if p(x)]`
  abbrev pub keep : (A → Bool) → List A → List A
  keep p [] = []
  keep p (x ∷ xs) = let rest = keep p xs in if p x then x ∷ rest else rest

  -- `any(p(x) for x in xs)`
  abbrev pub any : (A → Bool) → List A → Bool
  any p [] = false
  any p (x ∷ xs) = p x || any p xs

  -- `all(p(x) for x in xs)`
  abbrev pub all : (A → Bool) → List A → Bool
  all p [] = true
  all p (x ∷ xs) = p x && all p xs

  -- `sum(1 for x in xs if p(x))`
  abbrev pub count : (A → Bool) → List A → ℕ
  count p [] = 0
  count p (x ∷ xs) = (if p x then 1 else 0) + count p xs

  pub length-append : (xs ys : List A) → length (xs ++ ys) ≡ length xs + length ys
  length-append [] ys = omega arith
  length-append (x ∷ xs) ys = omega (arith, length-append xs ys)

  pub count-append : (p : A → Bool) (xs ys : List A) → count p (xs ++ ys) ≡ count p xs + count p ys
  count-append p [] ys = omega arith
  count-append p (x ∷ xs) ys = omega (arith, count-append p xs ys)

  pub count-zero :
      (p : A → Bool) (xs : List A) → ((x : A) → Memᴰ x xs → p x ≡ false) → count p xs ≡ 0
  count-zero p [] h = refl
  count-zero p (x ∷ xs) h =
      ground (arith, h x (Memᴰ.head refl), count-zero p xs (λ y m. h y (Memᴰ.tail m)))

  pub false_of_count :
      (p : A → Bool) (x : A) (xs : List A) → count p xs ≡ 0 → Memᴰ x xs → p x ≡ false
  false_of_count p x [] e m = elim m [ ]
  false_of_count p x (y ∷ xs) e (Memᴰ.head q) = rw q (ground arith)
  false_of_count p x (y ∷ xs) e (Memᴰ.tail m) = false_of_count p x xs (ground arith) m

  -- A test that splits into two that never hold together.
  pub count-split :
      (p q r : A → Bool) (xs : List A)
      → ((x : A) → (if p x then 1 else 0) ≡ (if q x then 1 else 0) + (if r x then 1 else 0))
      → count p xs ≡ count q xs + count r xs
  count-split p q r [] h = omega arith
  count-split p q r (x ∷ xs) h = omega (arith, h x, count-split p q r xs h)

  pub count-keep : (p q : A → Bool) (xs : List A) → count p (keep q xs) ≡ count (λ x. q x && p x) xs
  count-keep p q [] = refl
  count-keep p q (x ∷ xs) = ground (arith, count-keep p q xs)

  pub count-le-length : (p : A → Bool) (xs : List A) → count p xs ≤ length xs
  count-le-length p [] = omega arith
  count-le-length p (x ∷ xs) = ground (arith, count-le-length p xs)

pub length-map {ℓ κ} :
    {A : Type ℓ} {B : Type κ} (xs : List A) (f : A → B) → length (map f xs) ≡ length xs
length-map [] f = refl
length-map (x ∷ xs) f = ap suc (length-map xs f)

-- How often a text stands in a list.
abbrev pub occ : String → List String → ℕ
occ v xs = count (λ x. x == v) xs

-- `v in xs`
abbrev pub contains : List String → String → Bool
contains xs v = any (λ x. x == v) xs

pub contains-eq-occ : (xs : List String) (v : String) → contains xs v ≡ ltb 0 (occ v xs)
contains-eq-occ [] v = refl
contains-eq-occ (x ∷ xs) v = ground (arith, contains-eq-occ xs v)

pub contains_same :
    (xs : List String) (u v : String) → (u == v) ≡ true → contains xs u ≡ contains xs v
contains_same xs u v h = ap (contains xs) ((eq_iff u v).0 h)

module _ {ℓ} {A : Type ℓ} where
  pub any_of_mem : (p : A → Bool) (x : A) (xs : List A) → Memᴰ x xs → p x ≡ true → any p xs ≡ true
  any_of_mem p x [] m h = elim m [ ]
  any_of_mem p x (y ∷ xs) (Memᴰ.head e) h = ground (arith, ap p e)
  any_of_mem p x (y ∷ xs) (Memᴰ.tail m) h = ground (arith, any_of_mem p x xs m h)

  pub mem_of_any :
      (p : A → Bool) (xs : List A) → any p xs ≡ true → (x : A) × Memᴰ x xs × (p x ≡ true)
  mem_of_any p [] h = cc
  mem_of_any p (x ∷ xs) h = elim (Bool-cases (p x)) [
    | inl here ↦ (x, Memᴰ.head refl, here)
    | inr off ↦ let (y, m, holds) = mem_of_any p xs (ground arith) in (y, Memᴰ.tail m, holds)
  ]

  pub true_of_all : (p : A → Bool) (x : A) (xs : List A) → all p xs ≡ true → Memᴰ x xs → p x ≡ true
  true_of_all p x [] h m = elim m [ ]
  true_of_all p x (y ∷ xs) h (Memᴰ.head e) = ground (arith, ap p e)
  true_of_all p x (y ∷ xs) h (Memᴰ.tail m) = true_of_all p x xs (ground arith) m

  pub count-pos : (p : A → Bool) (x : A) (xs : List A) → Memᴰ x xs → p x ≡ true → 0 < count p xs
  count-pos p x [] m h = elim m [ ]
  count-pos p x (y ∷ xs) (Memᴰ.head e) h = ground (arith, ap p e)
  count-pos p x (y ∷ xs) (Memᴰ.tail m) h = ground (arith, count-pos p x xs m h)

  mem_of_keep_head :
      (p : A → Bool) (x y : A) (xs : List A)
      → p y ≡ true
      → Memᴰ x (y ∷ keep p xs)
      → (Memᴰ x (keep p xs) → Memᴰ x xs × (p x ≡ true))
      → Memᴰ x (y ∷ xs) × (p x ≡ true)
  mem_of_keep_head p x y xs kept (Memᴰ.head e) inner = (Memᴰ.head e, ap p e ∙ kept)
  mem_of_keep_head p x y xs kept (Memᴰ.tail m) inner = let (n, h) = inner m in (Memᴰ.tail n, h)

  pub mem_of_keep :
      (p : A → Bool) (x : A) (xs : List A) → Memᴰ x (keep p xs) → Memᴰ x xs × (p x ≡ true)
  mem_of_keep p x [] m = elim m [ ]
  mem_of_keep p x (y ∷ xs) m = elim (Bool-cases (p y)) [
    | inl kept ↦ mem_of_keep_head p x y xs kept (rw kept at m) (mem_of_keep p x xs)
    | inr dropped ↦ let (inner, h) = mem_of_keep p x xs (rw dropped at m) in (Memᴰ.tail inner, h)
  ]

  pub keep_of_mem :
      (p : A → Bool) (x : A) (xs : List A) → Memᴰ x xs → p x ≡ true → Memᴰ x (keep p xs)
  keep_of_mem p x [] m h = elim m [ ]
  keep_of_mem p x (y ∷ xs) (Memᴰ.head e) h =
      let kept : p y ≡ true = sym (ap p e) ∙ h in rw kept (Memᴰ.head e)
  keep_of_mem p x (y ∷ xs) (Memᴰ.tail m) h = elim (Bool-cases (p y)) [
    | inl kept ↦ rw kept (Memᴰ.tail (keep_of_mem p x xs m h))
    | inr dropped ↦ rw dropped (keep_of_mem p x xs m h)
  ]

  pub false_of_any :
      (p : A → Bool) (x : A) (xs : List A) → any p xs ≡ false → Memᴰ x xs → p x ≡ false
  false_of_any p x xs h m = elim (Bool-cases (p x)) [
    | inl holds ↦ ground (arith, any_of_mem p x xs m holds)
    | inr off ↦ off
  ]

  pub any-false :
      (p : A → Bool) (xs : List A) → ((x : A) → Memᴰ x xs → p x ≡ false) → any p xs ≡ false
  any-false p [] h = refl
  any-false p (x ∷ xs) h =
      ground (arith, h x (Memᴰ.head refl), any-false p xs (λ y m. h y (Memᴰ.tail m)))

  pub length-keep : (p : A → Bool) (xs : List A) → length (keep p xs) ≡ count p xs
  length-keep p [] = refl
  length-keep p (x ∷ xs) = ground (arith, length-keep p xs)

pub mem_of_map {ℓ κ} :
    {A : Type ℓ} {B : Type κ} (f : A → B) (y : B) (xs : List A)
    → Memᴰ y (map f xs)
    → (x : A) × Memᴰ x xs × (y ≡ f x)
mem_of_map f y [] m = elim m [ ]
mem_of_map f y (x ∷ xs) (Memᴰ.head e) = (x, Memᴰ.head refl, e)
mem_of_map f y (x ∷ xs) (Memᴰ.tail m) = let (z, n, e) = mem_of_map f y xs m in (z, Memᴰ.tail n, e)

pub map-mem {ℓ κ} :
    {A : Type ℓ} {B : Type κ} (f : A → B) (x : A) (xs : List A) → Memᴰ x xs → Memᴰ (f x) (map f xs)
map-mem f x [] m = elim m [ ]
map-mem f x (y ∷ xs) (Memᴰ.head e) = Memᴰ.head (ap f e)
map-mem f x (y ∷ xs) (Memᴰ.tail m) = Memᴰ.tail (map-mem f x xs m)

pub mem_of_contains : (v : String) (xs : List String) → contains xs v ≡ true → Memᴰ v xs
mem_of_contains v xs h =
    let (x, m, e) = mem_of_any (λ x. x == v) xs h in subst (λ w. Memᴰ w xs) ((eq_iff x v).0 e) m
