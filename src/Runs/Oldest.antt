-- ===== src/Runs/Oldest.antt =====
-- The selection of a claim: the oldest row that may be claimed.
use sdp_studio.Prelude.{
  ◌≤◌, ◌≡◌, refl, ap, ◌∙◌, subst, Bool, Bool-cases, inl, inr, true, false, List, [], ◌∷◌, Memᴰ, leb,
  Option, none, some, arith,
}
use sdp_studio.Runs.Store.{Run}
use sdp_studio.Runs.Claims.{older, oldest}

-- The candidate is a row that may be claimed, and no such row was created before it.
pub record IsOldest (p : Run → Bool) (runs : List Run) (c : Run) : Type 0 where
  pub listed : Memᴰ c runs
  pub holds : p c ≡ true
  pub first : (r : Run) → Memᴰ r runs → p r ≡ true → c.created_at ≤ r.created_at

pick :
    (p : Run → Bool) (r : Run) (runs : List Run)
    → p r ≡ true
    → (o : Option Run) → (o ≡ none → (x : Run) → Memᴰ x runs → p x ≡ false)
    → ((b : Run) → o ≡ some b → IsOldest p runs b)
    → (c : Run) → older r o ≡ some c
    → IsOldest p (r ∷ runs) c
pick p r runs hit none no_other best c h =
    let same : r ≡ c = cc in
    subst (IsOldest p (r ∷ runs)) same (record {
      listed = Memᴰ.head refl;
      holds = hit;
      first = λ x m q. elim m [
        | Memᴰ.head e ↦ ground (arith, ap (λ (y : Run). y.created_at) e)
        | Memᴰ.tail n ↦ ground (arith, no_other refl x n)
      ];
    })
pick p r runs hit (some b) no_other best c h = elim (Bool-cases (leb r.created_at b.created_at)) [
  | inl sooner ↦
      let same : r ≡ c = ground arith in
      subst (IsOldest p (r ∷ runs)) same (record {
        listed = Memᴰ.head refl;
        holds = hit;
        first = λ x m q. elim m [
          | Memᴰ.head e ↦ ground (arith, ap (λ (y : Run). y.created_at) e)
          | Memᴰ.tail n ↦ ground (arith, (best b refl).first x n q)
        ];
      })
  | inr later ↦
      let same : b ≡ c = ground arith in
      subst (IsOldest p (r ∷ runs)) same (record {
        listed = Memᴰ.tail (best b refl).listed;
        holds = (best b refl).holds;
        first = λ x m q. elim m [
          | Memᴰ.head e ↦ ground (arith, ap (λ (y : Run). y.created_at) e)
          | Memᴰ.tail n ↦ (best b refl).first x n q
        ];
      })
]

older-some : {A : Type 0} (r : Run) (o : Option Run) → older r o ≡ none → A
older-some r none h = cc
older-some r (some b) h = elim (Bool-cases (leb r.created_at b.created_at)) [
  | inl sooner ↦ ground arith
  | inr later ↦ ground arith
]

oldest-none :
    (p : Run → Bool) (runs : List Run)
    → oldest p runs ≡ none
    → (x : Run) → Memᴰ x runs
    → p x ≡ false
unfolding oldest
oldest-none p [] h x m = elim m [ ]
oldest-none p (r ∷ runs) h x m = elim (Bool-cases (p r)) [
  | inl hit ↦ older-some r (oldest p runs) (rw hit at h)
  | inr miss ↦ elim m [
    | Memᴰ.head e ↦ ap p e ∙ miss
    | Memᴰ.tail n ↦ oldest-none p runs (rw miss at h) x n
  ]
]

pub oldest-IsOldest :
    (p : Run → Bool) (runs : List Run) (c : Run) → oldest p runs ≡ some c → IsOldest p runs c
unfolding oldest
oldest-IsOldest p [] c h = cc
oldest-IsOldest p (r ∷ runs) c h = elim (Bool-cases (p r)) [
  | inl hit ↦
      pick p r runs hit (oldest p runs) (oldest-none p runs) (oldest-IsOldest p runs) c
        (rw hit at h)
  | inr miss ↦
      let o = oldest-IsOldest p runs c (rw miss at h) in
      record {
        listed = Memᴰ.tail o.listed;
        holds = o.holds;
        first =
            λ x m q. elim m [ Memᴰ.head e ↦ ground (arith, ap p e) | Memᴰ.tail n ↦ o.first x n q ];
      }
]
