-- ===== src/Graph/Secrets.antt =====
-- `_secret_literal_problems` of python/sdpstudio_core/graph.py: literals under keys that sound like
-- credentials. Keys are lowered as ASCII; the path in the problem's text is left out.
pub mod Exposure
use Prim.Native.Char.{code}
use text.Mathlib.Text.{starts_with}
use sdp_studio.Prelude.{
  ℕ, ◌+◌, String, Bool, true, false, List, [], ◌∷◌, ◌++◌, some, not, ◌&&◌, ◌||◌, any, leb, eqb,
  if◌then◌else◌, ◌==◌,
}
use sdp_studio.Json.{Json, Items, Fields, null, bool, num, str, list, dict, nil, cons, end, field}
use sdp_studio.Models.{Problem, Severity}

abbrev pub markers : List String
markers = "password" ∷ "token" ∷ "secret" ∷ "api_key" ∷ "apikey" ∷ "access_key" ∷ "private_key" ∷ []

lower_code : ℕ → ℕ
lower_code c = if leb 65 c && leb c 90 then c + 32 else c

-- `str(key).lower()`, as code points
unfoldable pub lower : String → List ℕ
unfolding lower_code
lower String.[] = []
lower (String.◌∷◌ c s) = lower_code (code c) ∷ lower s

unfoldable pub begins : List ℕ → List ℕ → Bool
begins [] ys = true
begins (x ∷ xs) [] = false
begins (x ∷ xs) (y ∷ ys) = eqb x y && begins xs ys

-- `needle in text`
unfoldable pub is_infix : List ℕ → List ℕ → Bool
unfolding begins
is_infix needle [] = begins needle []
is_infix needle (y ∷ ys) = begins needle (y ∷ ys) || is_infix needle ys

-- `any(marker in lower for marker in markers)`
unfoldable pub is_marked : String → Bool
unfolding lower is_infix
is_marked key = any (λ marker. is_infix (lower marker) (lower key)) markers

-- `isinstance(child, str) and child and not child.startswith("secret://")`
unfoldable pub is_literal : Json → Bool
is_literal (str s) = not (s == "") && not (starts_with s "secret://")
is_literal null = false
is_literal (bool b) = false
is_literal (num m n) = false
is_literal (list vs) = false
is_literal (dict d) = false

abbrev pub secret_problem : String → Problem
secret_problem node_id = record {
  code = "SDPS-SEC-001";
  severity = Severity.error;
  node_id = some node_id;
}

-- The inner function `walk`.
unfoldable mutual
  pub scan : String → Json → List Problem
  scan node_id null = []
  scan node_id (bool b) = []
  scan node_id (num m n) = []
  scan node_id (str s) = []
  scan node_id (list vs) = scan_items node_id vs
  scan node_id (dict d) = scan_fields node_id d

  pub scan_items : String → Items → List Problem
  scan_items node_id nil = []
  scan_items node_id (cons v vs) = scan node_id v ++ scan_items node_id vs

  pub scan_fields : String → Fields → List Problem
  scan_fields node_id end = []
  scan_fields node_id (field k v d) =
      (if is_marked k && is_literal v then secret_problem node_id ∷ [] else scan node_id v)
      ++ scan_fields node_id d

unfoldable pub secret_literal_problems : String → Fields → List Problem
unfolding scan_fields
secret_literal_problems node_id config = scan_fields node_id config
