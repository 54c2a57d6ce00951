-- ===== src/Runs/Deletion.antt =====
-- The deletion of a project leaves the runs of the others.
use sdp_studio.Prelude.{
  String, ◌≡◌, ◌∙◌, Bool, Bool-cases, inl, inr, true, not, List, [], ◌∷◌, keep, mem_of_keep, some,
  ◌==◌, ap,
}
use sdp_studio.Runs.Store.{Run, Store, find_run, delete_project}
use sdp_studio.Runs.Rows.{IsKeyed}
use sdp_studio.Runs.Operations.{is_outside}

some_same : {r s : Run} → some r ≡ some s → r ≡ s
some_same h = cc

find_run-keep :
    (p : Run → Bool) (id : String) (runs : List Run) (r : Run)
    → find_run id runs ≡ some r
    → p r ≡ true
    → find_run id (keep p runs) ≡ some r
unfolding find_run
find_run-keep p id [] r h on = cc
find_run-keep p id (x ∷ runs) r h on = elim (Bool-cases (x.id == id)) [
  | inl here ↦
      let same : x ≡ r = some_same (rw here at h) in
      let stays : p x ≡ true = ap p same ∙ on in rw stays (rw here (ap some same))
  | inr off ↦
      let rest = find_run-keep p id runs r (rw off at h) on in
      elim (Bool-cases (p x)) [ inl stays ↦ rw stays (rw off rest) | inr gone ↦ rw gone rest ]
]

pub delete_project-IsKeyed :
    (project_id : String) (s : Store) → IsKeyed s.runs → IsKeyed (delete_project project_id s).runs
unfolding delete_project
delete_project-IsKeyed project_id s h = record {
  first = λ r m.
      let (inside, on) = mem_of_keep (λ x. not (x.project_id == project_id)) r s.runs m in
      find_run-keep (λ x. not (x.project_id == project_id)) r.id s.runs r (h.first r inside) on;
}

pub delete_project-find :
    (project_id id : String) (s : Store) (r : Run)
    → find_run id s.runs ≡ some r
    → is_outside project_id (find_run id s.runs) ≡ true
    → find_run id (delete_project project_id s).runs ≡ some r
unfolding delete_project is_outside
delete_project-find project_id id s r h outside =
    find_run-keep (λ x. not (x.project_id == project_id)) id s.runs r h (rw h at outside)
