-- ===== src/Prelude/Text.antt =====
-- Python's `str` methods that the modelled code calls: `strip`, `removeprefix` and `in`.
use Prim.Native.Char.{Char, code}
use Prim.Native.Nat.{ℕ}
use Prim.Native.String.{String}
use mathlib.Core.Bool.{Bool, true, false, ◌&&◌, ◌||◌}
use mathlib.Core.Path.{◌≡◌, refl}
use mathlib.Core.Option.{Option, none, some}
use sdp_studio.Prelude.Tests.{leb, eqb, if◌then◌else◌}

-- `c.isspace()`
unfoldable pub is_space : ℕ → Bool
is_space c =
    leb 9 c && leb c 13
    || leb 28 c && leb c 32
    || eqb c 133
    || eqb c 160
    || eqb c 5760
    || leb 8192 c && leb c 8202
    || eqb c 8232
    || eqb c 8233
    || eqb c 8239
    || eqb c 8287
    || eqb c 12288

-- `s.lstrip()`
unfoldable pub lstrip : String → String
unfolding is_space
lstrip String.[] = String.[]
lstrip (String.◌∷◌ c s) = let rest = lstrip s in if is_space (code c) then rest else String.◌∷◌ c s

-- A character before a text that is stripped at its end.
push_kept : Char → String → String
push_kept c String.[] = if is_space (code c) then String.[] else String.◌∷◌ c String.[]
push_kept c (String.◌∷◌ d s) = String.◌∷◌ c (String.◌∷◌ d s)

-- `s.rstrip()`
unfoldable pub rstrip : String → String
unfolding push_kept is_space
rstrip String.[] = String.[]
rstrip (String.◌∷◌ c s) = push_kept c (rstrip s)

-- `s.strip()`
unfoldable pub strip : String → String
unfolding lstrip rstrip
strip s = rstrip (lstrip s)

-- What follows a prefix, if the text starts with it.
unfoldable pub after_prefix : String → String → Option String
after_prefix String.[] s = some s
after_prefix (String.◌∷◌ c p) String.[] = none
after_prefix (String.◌∷◌ c p) (String.◌∷◌ d s) =
    let rest = after_prefix p s in if eqb (code c) (code d) then rest else none

-- `s.startswith(prefix)`
unfoldable pub has_prefix : String → String → Bool
unfolding after_prefix
has_prefix prefix s = elim (after_prefix prefix s) [ none ↦ false | some _ ↦ true ]

-- `s.removeprefix(prefix)`
unfoldable pub remove_prefix : String → String → String
unfolding after_prefix
remove_prefix prefix s = elim (after_prefix prefix s) [ none ↦ s | some rest ↦ rest ]

-- `needle in s`
unfoldable pub is_within : String → String → Bool
unfolding has_prefix
is_within needle String.[] = has_prefix needle String.[]
is_within needle (String.◌∷◌ c s) =
    let rest = is_within needle s in has_prefix needle (String.◌∷◌ c s) || rest

strip_sample : strip "  a b  " ≡ "a b"
unfolding strip
strip_sample = refl

within_sample : is_within "sql" "transform.sql_project" ≡ true
unfolding is_within
within_sample = refl
