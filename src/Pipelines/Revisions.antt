-- ===== src/Pipelines/Revisions.antt =====
-- Of the saves that start from one revision at most one is accepted.
use sdp_studio.Prelude.{
  ℕ, true, Bool, all, ltb, ◌<◌, List, suc, ◌≤◌, ◌<◌, String, ◌≡◌, refl, sym, ap, false, List, [],
  ◌∷◌, Option, none, some, eqb, arith,
}
use sdp_studio.Models.{
  PipelineDocument, Validated, valid, duplicate_node_ids, duplicate_edge_ids, ensure_unique_ids,
}
use sdp_studio.Pipelines.{
  HistoryFile, Project, Settings, Moment, returned, revision_conflict, save_pipeline,
  create_history_checkpoint, restore_document, restore_found, restore_history, find_snapshot,
  Operation, save, keep, restore, git, perform, perform_all,
}

-- A save is accepted exactly if it starts from the current revision; the document is stored with the
-- next one. Otherwise nothing changes, and the current revision is reported.
pub save_pipeline-accepts :
    (settings : Settings) (at : Moment) (d : PipelineDocument) (p : Project)
    → d.revision ≡ p.document.revision
    → ((save_pipeline settings at d p).0 ≡ returned (record d { revision = suc d.revision }))
      × ((save_pipeline settings at d p).1.document ≡ record d { revision = suc d.revision })
unfolding save_pipeline
save_pipeline-accepts settings at d p e = rw (sym e) (ground arith, ground arith)

pub save_pipeline-conflicts :
    (settings : Settings) (at : Moment) (d : PipelineDocument) (p : Project)
    → (d.revision ≡ p.document.revision → ⊥)
    → save_pipeline settings at d p ≡ (revision_conflict p.document.revision, p)
unfolding save_pipeline
save_pipeline-conflicts settings at d p off =
    let other : eqb d.revision p.document.revision ≡ false = ground (arith, off) in rw other refl

save-grows :
    (settings : Settings) (at : Moment) (d : PipelineDocument) (p : Project)
    → p.document.revision ≤ (save_pipeline settings at d p).1.document.revision
unfolding save_pipeline
save-grows settings at d p = ground arith

restore-grows :
    (settings : Settings) (at : Moment) (v : Validated) (p : Project)
    → p.document.revision ≤ (restore_document settings at v p).1.document.revision
unfolding restore_document
restore-grows settings at (valid d) p =
    save-grows settings at (record d { revision = p.document.revision }) p
restore-grows settings at duplicate_node_ids p = omega arith
restore-grows settings at duplicate_edge_ids p = omega arith

found-grows :
    (settings : Settings) (at : Moment) (id : String) (o : Option HistoryFile) (p : Project)
    → p.document.revision ≤ (restore_found settings at id o p).1.document.revision
unfolding restore_found
found-grows settings at id none p = omega arith
found-grows settings at id (some f) p = restore-grows settings at (ensure_unique_ids f.document) p

-- A git command leaves a document of a later revision than this.
unfoldable pub is_ahead : ℕ → Operation → Bool
is_ahead base (save at d) = true
is_ahead base (keep at name) = true
is_ahead base (restore at id) = true
is_ahead base (git d) = ltb base d.revision

perform-ahead :
    (settings : Settings) (base : ℕ) (op : Operation) (p : Project)
    → is_ahead base op ≡ true
    → base < p.document.revision
    → base < (perform settings op p).document.revision
unfolding perform create_history_checkpoint restore_history is_ahead
perform-ahead settings base (save at d) p fair h = omega (arith, save-grows settings at d p)
perform-ahead settings base (keep at name) p fair h = ground arith
perform-ahead settings base (restore at id) p fair h =
    omega (arith, found-grows settings at id (find_snapshot id p.history) p)
perform-ahead settings base (git d) p fair h = ground arith

perform_all-ahead :
    (settings : Settings) (base : ℕ) (ops : List Operation) (p : Project)
    → all (is_ahead base) ops ≡ true
    → base < p.document.revision
    → base < (perform_all settings ops p).document.revision
unfolding perform_all
perform_all-ahead settings base [] p fair h = h
perform_all-ahead settings base (op ∷ ops) p fair h =
    perform_all-ahead settings base ops (perform settings op p) (ground arith)
      (perform-ahead settings base op p (ground arith) h)

-- Once a save from some revision is accepted, let saves, checkpoints, restores and git commands follow,
-- of which the latter leave documents of later revisions than that. Then every later save from the
-- same revision raises the conflict with the revision that is then current, and changes nothing: no
-- edit is lost to another that did not see it.
pub save_pipeline-first_wins :
    (settings : Settings) (at later : Moment) (d e : PipelineDocument) (ops : List Operation)
    (p : Project)
    → d.revision ≡ p.document.revision
    → e.revision ≡ d.revision
    → all (is_ahead d.revision) ops ≡ true
    → let q = perform_all settings ops (save_pipeline settings at d p).1 in
      (e.revision < q.document.revision)
      × (save_pipeline settings later e q ≡ (revision_conflict q.document.revision, q))
save_pipeline-first_wins settings at later d e ops p accepted same fair =
    let q = perform_all settings ops (save_pipeline settings at d p).1 in
    let next =
      ap (λ (x : PipelineDocument). x.revision)
        (save_pipeline-accepts settings at d p accepted).1 in
    let grown =
      perform_all-ahead settings d.revision ops (save_pipeline settings at d p).1 fair
        (omega (arith, next)) in
    let behind : e.revision < q.document.revision = omega (arith, grown) in
    (behind, save_pipeline-conflicts settings later e q (λ r. omega (arith, behind)))
