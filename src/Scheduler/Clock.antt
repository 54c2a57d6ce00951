-- ===== src/Scheduler/Clock.antt =====
-- `_matches` and `schedule_matches` of python/sdpstudio_server/scheduler.py, and the calendar by which
-- a minute has its fields.
use Prim.Native.Char.{code}
use sdp_studio.Prelude.{
  ℕ, suc, ◌+◌, ◌-◌, ◌*◌, ◌/◌, ◌%◌, String, Bool, true, false, List, [], ◌∷◌, Option, none, some,
  not, keep, ◌&&◌, ◌||◌, keep, all, any, eqb, leb, ltb, if◌then◌else◌, ◌≡◌, refl,
}
use sdp_studio.Prelude.Text.{is_space}

-- The code points of a text.
abbrev pub points : String → List ℕ
points String.[] = []
points (String.◌∷◌ c s) = code c ∷ points s

add_front : ℕ → List (List ℕ) → List (List ℕ)
add_front c [] = (c ∷ []) ∷ []
add_front c (part ∷ parts) = (c ∷ part) ∷ parts

-- `s.split(sep)`
unfoldable pub split_at : (ℕ → Bool) → List ℕ → List (List ℕ)
unfolding add_front
split_at sep [] = [] ∷ []
split_at sep (c ∷ cs) =
    let parts = split_at sep cs in if sep c then [] ∷ parts else add_front c parts

is_empty : List ℕ → Bool
is_empty [] = true
is_empty (c ∷ cs) = false

-- `s.split()`
unfoldable pub words : List ℕ → List (List ℕ)
unfolding split_at is_empty is_space
words s = keep (λ part. not (is_empty part)) (split_at is_space s)

is_digit : ℕ → Bool
is_digit c = leb 48 c && leb c 57

value_from : ℕ → List ℕ → ℕ
value_from n [] = n
value_from n (c ∷ cs) = value_from (n * 10 + (c - 48)) cs

-- `int(s)`, or its `ValueError`
unfoldable pub int_of : List ℕ → Option ℕ
unfolding is_empty is_digit value_from
int_of s = if not (is_empty s) && all is_digit s then some (value_from 0 s) else none

-- `item.split("-", 1)`, if there is a dash
unfoldable pub cut_dash : List ℕ → Option (List ℕ × List ℕ)
cut_dash [] = none
cut_dash (c ∷ cs) =
    let rest = cut_dash cs in
    if eqb c 45 then some ([], cs) else elim rest [ none ↦ none | some (a, b) ↦ some (c ∷ a, b) ]

in_range : Option ℕ → Option ℕ → ℕ → Bool
in_range (some start) (some end) value = leb start value && leb value end
in_range _ _ value = false

-- One item of a field: a number, or a range.
unfoldable pub item_matches : List ℕ → ℕ → Bool
unfolding int_of cut_dash in_range
item_matches item value =
    elim (int_of item) [ none ↦ false | some n ↦ eqb n value ]
    || elim (cut_dash item) [ none ↦ false | some (a, b) ↦ in_range (int_of a) (int_of b) value ]

is_star : List ℕ → Bool
is_star (c ∷ []) = eqb c 42
is_star _ = false

-- `_matches`
unfoldable pub matches : List ℕ → ℕ → Bool
unfolding is_star split_at item_matches
matches field value =
    is_star field || any (λ item. item_matches item value) (split_at (eqb 44) field)

-- The month and the day of a day since 1970, by the rule of the Gregorian calendar.
unfoldable pub month_and_day : ℕ → ℕ × ℕ
month_and_day days =
    let of_era = (days + 719468) % 146097 in
    let year = (of_era - of_era / 1460 + of_era / 36524 - of_era / 146096) / 365 in
    let of_year = of_era - (365 * year + year / 4 - year / 100) in
    let month = (5 * of_year + 2) / 153 in
    (if ltb month 10 then month + 3 else month - 9, suc (of_year - (153 * month + 2) / 5))

-- The five tests of `schedule_matches`. The week starts on Sunday, and 1970 on a Thursday.
unfoldable pub fields_match : List (List ℕ) → ℕ → Bool
unfolding matches month_and_day
fields_match (minute ∷ hour ∷ day ∷ month ∷ weekday ∷ []) moment =
    let days = moment / 1440 in
    let date = month_and_day days in
    matches minute (moment % 60)
    && matches hour (moment / 60 % 24)
    && matches day date.1
    && matches month date.0
    && matches weekday ((days + 4) % 7)
fields_match _ moment = false

unfoldable pub schedule_matches : String → ℕ → Bool
unfolding words fields_match
schedule_matches cron moment = fields_match (words (points cron)) moment

-- 29 February 2024, which was a Thursday, at 6:30.
leap_day : schedule_matches "30 6 29 2 4" 28486470 ≡ true
unfolding schedule_matches
leap_day = refl

in_lists : schedule_matches "*/5,0-31 1,6 * 2 1-5" 28486470 ≡ true
unfolding schedule_matches
in_lists = refl
