-- ===== src/Models/Problems.antt =====
-- `has_errors` of python/sdpstudio_core/graph.py.
use sdp_studio.Prelude.{◌≡◌, refl, Bool, true, false, ◌||◌, List, [], ◌∷◌, ◌++◌, any, arith}
use sdp_studio.Models.{Problem, Severity}

abbrev pub is_error : Severity → Bool
is_error Severity.info = false
is_error Severity.warning = false
is_error Severity.error = true

abbrev pub has_errors : List Problem → Bool
has_errors problems = any (λ p. is_error p.severity) problems

pub has_errors-append :
    (ps qs : List Problem) → has_errors (ps ++ qs) ≡ has_errors ps || has_errors qs
has_errors-append [] qs = refl
has_errors-append (p ∷ ps) qs = ground (arith, has_errors-append ps qs)
