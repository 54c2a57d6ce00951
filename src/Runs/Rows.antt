-- ===== src/Runs/Rows.antt =====
-- What the operations do to the row of one run. Ids are the primary key of the table.
use sdp_studio.Prelude.{
  String, ◌≡◌, refl, sym, ap, ◌∙◌, Bool, Bool-cases, inl, inr, true, false, List, [], ◌∷◌, ◌++◌,
  Memᴰ, some, if◌then◌else◌, arith, ◌==◌, eq_iff,
}
use sdp_studio.Runs.Store.{
  Run, find_run, update_where, Change, status, started_at, finished_at, claimed_at, heartbeat_at,
  exit_code, error, claim_token, other, apply_change, apply_all,
}

-- An update that keeps the key.
abbrev pub KeepsId : (Run → Run) → Type 0
KeepsId f = (r : Run) → (f r).id ≡ r.id

pub find_run-update_where :
    (p : Run → Bool) (f : Run → Run) (id : String) (runs : List Run) (r : Run)
    → KeepsId f
    → find_run id runs ≡ some r
    → find_run id (update_where p f runs) ≡ some (if p r then f r else r)
unfolding find_run update_where
find_run-update_where p f id [] r keeps h = cc
find_run-update_where p f id (x ∷ runs) r keeps h = elim (Bool-cases (p x)) [
  | inl hit ↦
      ground (arith, ap (λ i. i == id) (keeps x), hit, find_run-update_where p f id runs r keeps)
  | inr miss ↦ ground (arith, miss, find_run-update_where p f id runs r keeps)
]

pub find_run-append :
    (id : String) (runs more : List Run) (r : Run)
    → find_run id runs ≡ some r
    → find_run id (runs ++ more) ≡ some r
unfolding find_run
find_run-append id [] more r h = cc
find_run-append id (x ∷ runs) more r h = ground (arith, find_run-append id runs more r)

pub find_run-id : (id : String) (runs : List Run) (r : Run) → find_run id runs ≡ some r → r.id ≡ id
unfolding find_run
find_run-id id [] r h = cc
find_run-id id (x ∷ runs) r h = ground (arith, eq_iff x.id id, find_run-id id runs r)

apply_change-id : (c : Change) (r : Run) → (apply_change c r).id ≡ r.id
unfolding apply_change
apply_change-id (status s) r = refl
apply_change-id (started_at t) r = refl
apply_change-id (finished_at t) r = refl
apply_change-id (claimed_at t) r = refl
apply_change-id (heartbeat_at t) r = refl
apply_change-id (exit_code c) r = refl
apply_change-id (error e) r = refl
apply_change-id (claim_token t) r = refl
apply_change-id (other n) r = refl

pub apply_all-id : (cs : List Change) → KeepsId (apply_all cs)
unfolding apply_all
apply_all-id [] r = refl
apply_all-id (c ∷ cs) r = apply_all-id cs (apply_change c r) ∙ apply_change-id c r

-- The first row of an id is the only one.
pub record IsKeyed (runs : List Run) : Type 0 where
  pub first : (r : Run) → Memᴰ r runs → find_run r.id runs ≡ some r

update_where-mem :
    (p : Run → Bool) (f : Run → Run) (runs : List Run) (x : Run)
    → Memᴰ x (update_where p f runs)
    → (r : Run) × Memᴰ r runs × (x ≡ (if p r then f r else r))
unfolding update_where
update_where-mem p f [] x m = elim m [ ]
update_where-mem p f (r ∷ runs) x (Memᴰ.head e) = (r, Memᴰ.head refl, e)
update_where-mem p f (r ∷ runs) x (Memᴰ.tail m) =
    let (y, n, e) = update_where-mem p f runs x m in (y, Memᴰ.tail n, e)

if_keeps : (b : Bool) (f : Run → Run) (r : Run) → KeepsId f → (if b then f r else r).id ≡ r.id
if_keeps true f r keeps = keeps r
if_keeps false f r keeps = refl

pub update_where-IsKeyed :
    (p : Run → Bool) (f : Run → Run) (runs : List Run)
    → KeepsId f
    → IsKeyed runs
    → IsKeyed (update_where p f runs)
update_where-IsKeyed p f runs keeps h = record {
  first = λ x m.
      let (r, n, e) = update_where-mem p f runs x m in
      ap (λ (y : Run). find_run y.id (update_where p f runs)) e
      ∙ ap (λ i. find_run i (update_where p f runs)) (if_keeps (p r) f r keeps)
      ∙ find_run-update_where p f r.id runs r keeps (h.first r n)
      ∙ ap some (sym e);
}
