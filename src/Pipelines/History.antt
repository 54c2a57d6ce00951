-- ===== src/Pipelines/History.antt =====
-- A file stays in the history for as long as the settings say.
use sdp_studio.Prelude.{
  ℕ, zero, suc, ◌+◌, ◌≤◌, ◌<◌, String, ◌≡◌, refl, ap, Bool-cases, true, false, List, [], ◌∷◌, Memᴰ,
  length, Option, none, some, ltb, eqb, ◌==◌, eq_refl, arith, ◌⊎◌, inl, inr,
}
use sdp_studio.Models.{
  PipelineDocument, Validated, valid, duplicate_node_ids, duplicate_edge_ids, ensure_unique_ids,
}
use sdp_studio.Pipelines.{
  HistoryFile, Project, Settings, Moment, is_newer, place, prune, at_least_one, add_snapshot,
  save_pipeline, create_history_checkpoint, restore_document, restore_found, restore_history,
  find_snapshot, is_settled, latest, Operation, save, keep, restore, git, perform, perform_all,
  is_checkpoint_name,
}

-- Among the first files, and the only one of its id there.
abbrev pub StandsWithin : HistoryFile → ℕ → List HistoryFile → Type 0
StandsWithin s k [] = ⊥
StandsWithin s zero (f ∷ files) = f ≡ s
StandsWithin s (suc k) (f ∷ files) = (f ≡ s) ⊎ (((f.id == s.id) ≡ false) × StandsWithin s k files)

widen :
    (s : HistoryFile) (k : ℕ) (files : List HistoryFile)
    → StandsWithin s k files
    → StandsWithin s (suc k) files
widen s k [] h = h
widen s zero (f ∷ files) h = inl h
widen s (suc k) (f ∷ files) (inl e) = inl e
widen s (suc k) (f ∷ files) (inr (off, h)) = inr (off, widen s k files h)

place-StandsWithin :
    (s new : HistoryFile) (k : ℕ) (files : List HistoryFile)
    → (new.id == s.id) ≡ false
    → StandsWithin s k files
    → StandsWithin s (suc k) (place new files)
unfolding place
place-StandsWithin s new k [] off h = absurd h
place-StandsWithin s new zero (f ∷ files) off h = elim (Bool-cases (is_newer new f)) [
  | inl newer ↦ rw newer (inr (off, h))
  | inr older ↦ rw older (inl h)
]
place-StandsWithin s new (suc k) (f ∷ files) off h = elim (Bool-cases (is_newer new f)) [
  | inl newer ↦ rw newer (inr (off, h))
  | inr older ↦ rw older (elim h [
    | inl e ↦ inl e
    | inr (apart, inside) ↦ inr (apart, place-StandsWithin s new k files off inside)
  ])
]

pub prune-StandsWithin :
    (s : HistoryFile) (k room max_age now : ℕ) (files : List HistoryFile)
    → k < room
    → now ≤ s.modified + max_age
    → StandsWithin s k files
    → StandsWithin s k (prune room max_age now files)
unfolding prune
prune-StandsWithin s k room max_age now [] below young h = absurd h
prune-StandsWithin s k zero max_age now (f ∷ files) below young h = absurd (omega arith)
prune-StandsWithin s zero (suc room) max_age now (f ∷ files) below young h =
    let stays : ltb (f.modified + max_age) now ≡ false =
      ground (arith, ap (λ (x : HistoryFile). x.modified) h) in
    rw stays h
prune-StandsWithin s (suc k) (suc room) max_age now (f ∷ files) below young (inl e) =
    let stays : ltb (f.modified + max_age) now ≡ false =
      ground (arith, ap (λ (x : HistoryFile). x.modified) e) in
    rw stays (inl e)
prune-StandsWithin s (suc k) (suc room) max_age now (f ∷ files) below young (inr (off, h)) =
    let rest = prune-StandsWithin s k room max_age now files (omega arith) young h in
    elim (Bool-cases (ltb (f.modified + max_age) now)) [
      | inl old ↦ rw old (widen s k (prune room max_age now files) rest)
      | inr stays ↦ rw stays (inr (off, rest))
    ]

find_snapshot-StandsWithin :
    (s : HistoryFile) (k : ℕ) (files : List HistoryFile)
    → StandsWithin s k files
    → find_snapshot s.id files ≡ some s
unfolding find_snapshot
find_snapshot-StandsWithin s k [] h = absurd h
find_snapshot-StandsWithin s zero (f ∷ files) h = rw h (rw (eq_refl s.id) refl)
find_snapshot-StandsWithin s (suc k) (f ∷ files) (inl e) = rw e (rw (eq_refl s.id) refl)
find_snapshot-StandsWithin s (suc k) (f ∷ files) (inr (off, h)) =
    rw off (find_snapshot-StandsWithin s k files h)

pub place-first :
    (s : HistoryFile) (files : List HistoryFile)
    → ((f : HistoryFile) → Memᴰ f files → f.stamp < s.stamp)
    → StandsWithin s 0 (place s files)
unfolding place is_newer
place-first s [] h = refl
place-first s (f ∷ files) h =
    let newer : ltb f.stamp s.stamp ≡ true = let below = h f (Memᴰ.head refl) in ground arith in
    rw newer refl

-- Nothing that the settings let a file outlive takes it away.
abbrev pub IsFollower : Settings → HistoryFile → Moment → Type 0
IsFollower settings s at =
    ((at.new_id == s.id) ≡ false) × (at.pruned ≤ s.modified + settings.max_age)

add_snapshot-StandsWithin :
    (settings : Settings) (at : Moment) (d : PipelineDocument) (reason : String) (s : HistoryFile)
    (k : ℕ) (files : List HistoryFile)
    → IsFollower settings s at
    → suc k < at_least_one settings.max_count
    → StandsWithin s k files
    → StandsWithin s (suc k) (add_snapshot settings at d reason files)
unfolding add_snapshot
add_snapshot-StandsWithin settings at d reason s k files (off, young) room h =
    prune-StandsWithin s (suc k) (at_least_one settings.max_count) settings.max_age at.pruned
      (place _ files) room young (place-StandsWithin s _ k files off h)

-- An operation of the server whose file, if it writes one, is such a follower.
abbrev pub IsHarmless : Settings → HistoryFile → Operation → Type 0
IsHarmless settings s (save at d) = IsFollower settings s at
IsHarmless settings s (keep at name) = IsFollower settings s at
IsHarmless settings s (restore at id) = IsFollower settings s at
IsHarmless settings s (git d) = Unit

module _ (settings : Settings) (s : HistoryFile) where
  save-StandsWithin :
      (at : Moment) (d : PipelineDocument) (k : ℕ) (p : Project)
      → IsFollower settings s at
      → suc k < at_least_one settings.max_count
      → StandsWithin s k p.history
      → StandsWithin s (suc k) (save_pipeline settings at d p).1.history
  unfolding save_pipeline
  save-StandsWithin at d k p later room h = elim (Bool-cases (eqb d.revision p.document.revision)) [
    | inr other ↦ rw other (widen s k p.history h)
    | inl same ↦ elim (Bool-cases (is_settled settings.debounce at.now (latest p.history))) [
      | inl settled ↦
          rw (same, settled)
            (add_snapshot-StandsWithin settings at p.document "before visual edit" s k p.history
              later room h)
      | inr rapid ↦ rw (same, rapid) (widen s k p.history h)
    ]
  ]

  keep-StandsWithin :
      (at : Moment) (name : String) (k : ℕ) (p : Project)
      → IsFollower settings s at
      → suc k < at_least_one settings.max_count
      → StandsWithin s k p.history
      → StandsWithin s (suc k) (create_history_checkpoint settings at name p).1.history
  unfolding create_history_checkpoint
  keep-StandsWithin at name k p later room h = elim (Bool-cases (is_checkpoint_name name)) [
    | inl fine ↦
        rw fine (add_snapshot-StandsWithin settings at p.document _ s k p.history later room h)
    | inr off ↦ rw off (widen s k p.history h)
  ]

  restore-StandsWithin :
      (at : Moment) (v : Validated) (k : ℕ) (p : Project)
      → IsFollower settings s at
      → suc k < at_least_one settings.max_count
      → StandsWithin s k p.history
      → StandsWithin s (suc k) (restore_document settings at v p).1.history
  unfolding restore_document
  restore-StandsWithin at (valid d) k p later room h =
      save-StandsWithin at (record d { revision = p.document.revision }) k p later room h
  restore-StandsWithin at duplicate_node_ids k p later room h = widen s k p.history h
  restore-StandsWithin at duplicate_edge_ids k p later room h = widen s k p.history h

  found-StandsWithin :
      (at : Moment) (id : String) (o : Option HistoryFile) (k : ℕ) (p : Project)
      → IsFollower settings s at
      → suc k < at_least_one settings.max_count
      → StandsWithin s k p.history
      → StandsWithin s (suc k) (restore_found settings at id o p).1.history
  unfolding restore_found
  found-StandsWithin at id none k p later room h = widen s k p.history h
  found-StandsWithin at id (some f) k p later room h =
      restore-StandsWithin at (ensure_unique_ids f.document) k p later room h

  perform-StandsWithin :
      (op : Operation) (k : ℕ) (p : Project)
      → IsHarmless settings s op
      → suc k < at_least_one settings.max_count
      → StandsWithin s k p.history
      → StandsWithin s (suc k) (perform settings op p).history
  unfolding perform restore_history
  perform-StandsWithin (git d) k p later room h = widen s k p.history h
  perform-StandsWithin (save at d) k p later room h = save-StandsWithin at d k p later room h
  perform-StandsWithin (keep at name) k p later room h = keep-StandsWithin at name k p later room h
  perform-StandsWithin (restore at id) k p later room h =
      found-StandsWithin at id (find_snapshot id p.history) k p later room h

  pub perform_all-finds :
      (ops : List Operation) (k : ℕ) (p : Project)
      → ((op : Operation) → Memᴰ op ops → IsHarmless settings s op)
      → k + length ops < at_least_one settings.max_count
      → StandsWithin s k p.history
      → find_snapshot s.id (perform_all settings ops p).history ≡ some s
  unfolding perform_all
  perform_all-finds [] k p later room h = find_snapshot-StandsWithin s k p.history h
  perform_all-finds (op ∷ ops) k p later room h =
      perform_all-finds ops (suc k) (perform settings op p) (λ o m. later o (Memᴰ.tail m))
        (omega arith) (perform-StandsWithin op k p (later op (Memᴰ.head refl)) (omega arith) h)
