-- ===== src/Documents.antt =====
-- python/sdpstudio_core/persistence.py: the migration of a document that was read from a file. The
-- root of a document is the mapping `Fields`; a negative version, which no migration is registered
-- for, is left out.
pub mod Versions
use sdp_studio.Prelude.{
  ℕ, zero, suc, ◌+◌, ◌-◌, String, ◌==◌, Bool, true, false, Option, none, some, ltb, if◌then◌else◌,
}
use sdp_studio.Prelude.Int.{pos}
use sdp_studio.Json.{Json, Fields, num, end, field, get}

abbrev pub current_schema_version : ℕ
current_schema_version = 1

-- The key of the version.
abbrev pub schema_version : String
schema_version = "schemaVersion"

abbrev pub one : Json
one = num (pos 1) 0

unfoldable pub add_last : String → Json → Fields → Fields
add_last k v end = field k v end
add_last k v (field j w d) = field j w (add_last k v d)

-- `migrated.setdefault("schemaVersion", 1)`
unfoldable pub migrate_v0_to_v1 : Fields → Fields
unfolding get add_last
migrate_v0_to_v1 raw = elim (get schema_version raw) [
  | none ↦ add_last schema_version one raw
  | some v ↦ raw
]

-- `SCHEMA_MIGRATIONS.get(version)`
unfoldable pub migration_of : ℕ → Option (Fields → Fields)
unfolding migrate_v0_to_v1
migration_of zero = some migrate_v0_to_v1
migration_of (suc version) = none

pub data Migration : Type 0 where
  migrated : Fields → Migration
  newer : Migration
  no_migration : ℕ → Migration

-- The loop, with the number of versions that are left.
unfoldable pub migrate_from : ℕ → ℕ → Fields → Migration
unfolding migration_of
migrate_from zero version raw = migrated raw
migrate_from (suc left) version raw = elim (migration_of version) [
  | none ↦ no_migration version
  | some f ↦ migrate_from left (suc version) (f raw)
]

unfoldable pub migrate_document : Fields → ℕ → ℕ → Migration
unfolding migrate_from
migrate_document raw from_version to_version =
    if ltb to_version from_version
    then newer
    else migrate_from (to_version - from_version) from_version raw
