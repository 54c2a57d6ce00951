-- ===== src/Prelude/Dict.antt =====
-- Python's `dict` with text keys: an association list in insertion order, where writing a key that
-- is there keeps its place.
use Prim.Native.Nat.{◌+◌}
use Prim.Native.String.{String}
use mathlib.Core.Path.{◌≡◌, refl}
use mathlib.Core.Bool.{Bool}
use mathlib.Core.Option.{Option, none, some}
use mathlib.Core.List.{List, [], ◌∷◌}
use native.Mathlib.Omega.{arith}
use text.Mathlib.Text.{◌==◌}
use text.Mathlib.TextEquality.{eq_iff}
use sdp_studio.Prelude.Tests.{if◌then◌else◌, is_some}
use sdp_studio.Prelude.Lists.{occ}

abbrev pub Dict {ℓ} : Type ℓ → Type ℓ
Dict V = List (String × V)

module _ {ℓ} {V : Type ℓ} where
  -- `d.get(k)`
  unfoldable pub lookup : String → Dict V → Option V
  lookup k [] = none
  lookup k ((j, v) ∷ d) = if j == k then some v else lookup k d

  -- `d[k] = v`
  unfoldable pub insert : String → V → Dict V → Dict V
  insert k v [] = (k, v) ∷ []
  insert k v ((j, w) ∷ d) = if j == k then (j, v) ∷ d else (j, w) ∷ insert k v d

  -- `d.get(k, default)`
  abbrev pub get_or : String → V → Dict V → V
  get_or k v d = elim (lookup k d) [ none ↦ v | some w ↦ w ]

  -- `k in d`
  abbrev pub has : Dict V → String → Bool
  has d k = is_some (lookup k d)

  abbrev pub keys : Dict V → List String
  keys [] = []
  keys ((k, v) ∷ d) = k ∷ keys d

  pub lookup-insert :
      (k j : String) (v : V) (d : Dict V)
      → lookup j (insert k v d) ≡ (if k == j then some v else lookup j d)
  unfolding lookup insert
  lookup-insert k j v [] = refl
  lookup-insert k j v ((i, w) ∷ d) =
      ground (arith, eq_iff k j, eq_iff i k, eq_iff i j, lookup-insert k j v d)

  -- Writing keeps the keys apart.
  pub occ-keys-insert :
      (k j : String) (v : V) (d : Dict V)
      → occ j (keys (insert k v d))
        ≡ (if has d k then 0 else if k == j then 1 else 0) + occ j (keys d)
  unfolding lookup insert
  occ-keys-insert k j v [] = ground arith
  occ-keys-insert k j v ((i, w) ∷ d) =
      ground (arith, eq_iff k j, eq_iff i k, eq_iff i j, occ-keys-insert k j v d)

  -- Each key stands once.
  pub record IsUnique (d : Dict V) : Type ℓ where
    pub once : (k : String) → occ k (keys d) ≡ (if has d k then 1 else 0)

  pub insert-IsUnique : (k : String) (v : V) (d : Dict V) → IsUnique d → IsUnique (insert k v d)
  insert-IsUnique k v d h = record {
    once =
        λ j. ground (arith, lookup-insert k j v d, occ-keys-insert k j v d, h.once j, eq_iff k j);
  }

  pub empty-IsUnique : IsUnique []
  unfolding lookup
  empty-IsUnique = record { once = λ k. refl }
