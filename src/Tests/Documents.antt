-- ===== src/Tests/Documents.antt =====
-- A document of version 0 with and without its version.
use sdp_studio.Prelude.{◌≡◌, refl}
use sdp_studio.Prelude.Int.{pos}
use sdp_studio.Json.{Fields, str, num, end, field, get}
use sdp_studio.Documents.{schema_version, one, migrated, newer, migrate_document}

abbrev unversioned : Fields
unversioned = field "name" (str "main") end

abbrev old : Fields
old = field schema_version (num (pos 0) 0) (field "name" (str "main") end)

version_added :
    migrate_document unversioned 0 1
    ≡ migrated (field "name" (str "main") (field schema_version one end))
unfolding migrate_document get
version_added = refl

-- The written version 0 is kept.
version_kept : migrate_document old 0 1 ≡ migrated old
unfolding migrate_document get
version_kept = refl

newer_refused : migrate_document old 2 1 ≡ newer
unfolding migrate_document
newer_refused = refl
