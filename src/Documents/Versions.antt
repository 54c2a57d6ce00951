-- ===== src/Documents/Versions.antt =====
-- What a migration does to a document.
use sdp_studio.Prelude.{
  ℕ, zero, suc, ◌≤◌, String, ◌≡◌, refl, ◌==◌, eq_iff, Bool, inl, inr, ◌&&◌, not, Option-cases,
  is_some, none, some, eqb, if◌then◌else◌, arith,
}
use sdp_studio.Json.{Json, Fields, end, field, get}
use sdp_studio.Documents.{
  current_schema_version, schema_version, one, add_last, migrate_v0_to_v1, migration_of, migrated,
  migrate_from, migrate_document,
}

get-add_last :
    (k j : String) (v : Json) (d : Fields)
    → get k d ≡ none
    → get j (add_last k v d) ≡ (if j == k then some v else get j d)
unfolding get add_last
get-add_last k j v end h = ground (arith, eq_iff k j, eq_iff j k)
get-add_last k j v (field i w d) h =
    ground (arith, get-add_last k j v d, eq_iff i k, eq_iff i j, eq_iff j k)

-- The version is written where the document names none.
unversioned : String → Fields → Bool
unversioned k raw = k == schema_version && not (is_some (get schema_version raw))

get-migrate_v0_to_v1 :
    (k : String) (raw : Fields)
    → get k (migrate_v0_to_v1 raw) ≡ (if unversioned k raw then some one else get k raw)
unfolding migrate_v0_to_v1 unversioned
get-migrate_v0_to_v1 k raw = elim (Option-cases (get schema_version raw)) [
  | inl missing ↦ rw missing (ground (arith, get-add_last schema_version k one raw missing))
  | inr (v, found) ↦ rw found (ground arith)
]

-- A document of version 0 or 1 is migrated to the current version: no migration is missing on the
-- way, and each key reads as before, except that a document of version 0 that names no version reads
-- as version 1. One that names version 0 keeps that.
pub migrate_document-current :
    (raw : Fields) (from_version : ℕ)
    → from_version ≤ 1
    → (d : Fields) × (migrate_document raw from_version current_schema_version ≡ migrated d)
      × ((k : String)
          → get k d ≡ (
              if eqb from_version 0
                && (k == schema_version && not (is_some (get schema_version raw)))
              then some one
              else get k raw))
unfolding migrate_document migrate_from migration_of unversioned
migrate_document-current raw zero h = (migrate_v0_to_v1 raw, refl, λ k. get-migrate_v0_to_v1 k raw)
migrate_document-current raw (suc zero) h = (raw, refl, λ k. refl)
migrate_document-current raw (suc (suc n)) h = absurd (omega arith)
