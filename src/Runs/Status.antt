-- ===== src/Runs/Status.antt =====
-- The life of a run: `RUN_TRANSITIONS` and `is_valid_run_transition` of
-- python/sdpstudio_core/models.py.
use sdp_studio.Prelude.{ℕ, Bool, List, [], ◌∷◌, any, ◌||◌, eqb}

pub data RunStatus : Type 0 where
  created queued preparing validating submitting running collecting_artifacts succeeded : RunStatus
  validation_failed failed cancelled lost : RunStatus

-- A number for each status, in the order of the source.
abbrev pub ordinal : RunStatus → ℕ
ordinal created = 0
ordinal queued = 1
ordinal preparing = 2
ordinal validating = 3
ordinal submitting = 4
ordinal running = 5
ordinal collecting_artifacts = 6
ordinal succeeded = 7
ordinal validation_failed = 8
ordinal failed = 9
ordinal cancelled = 10
ordinal lost = 11

-- `a == b`
abbrev pub same_status : RunStatus → RunStatus → Bool
same_status a b = eqb (ordinal a) (ordinal b)

unfoldable pub run_transitions : RunStatus → List RunStatus
run_transitions created = queued ∷ failed ∷ cancelled ∷ lost ∷ []
run_transitions queued = preparing ∷ failed ∷ cancelled ∷ lost ∷ []
run_transitions preparing = validating ∷ failed ∷ cancelled ∷ lost ∷ []
run_transitions validating = submitting ∷ validation_failed ∷ failed ∷ cancelled ∷ lost ∷ []
run_transitions submitting = running ∷ failed ∷ cancelled ∷ lost ∷ []
run_transitions running = collecting_artifacts ∷ failed ∷ cancelled ∷ lost ∷ []
run_transitions collecting_artifacts = succeeded ∷ failed ∷ lost ∷ []
run_transitions succeeded = []
run_transitions validation_failed = []
run_transitions failed = []
run_transitions cancelled = []
run_transitions lost = []

unfoldable pub is_valid_run_transition : RunStatus → RunStatus → Bool
unfolding run_transitions
is_valid_run_transition current target =
    same_status current target || any (λ s. same_status s target) (run_transitions current)

-- The set that recovery and the workers test against.
abbrev pub terminal_statuses : List RunStatus
terminal_statuses = succeeded ∷ failed ∷ cancelled ∷ validation_failed ∷ lost ∷ []

unfoldable pub is_terminal : RunStatus → Bool
is_terminal s = any (λ t. same_status t s) terminal_statuses
