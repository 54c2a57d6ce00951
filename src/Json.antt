-- ===== src/Json.antt =====
-- The JSON-like values of node configurations (`dict[str, Any]` in python/sdpstudio_core/models.py).
use sdp_studio.Prelude.{ℕ, String, Bool, true, false, not, Option, none, some, ◌==◌, if◌then◌else◌}
use sdp_studio.Prelude.Int.{ℤ, is_zero}

-- A number is the decimal `mantissa / 10 ^ scale`, as a document spells it.
mutual
  pub data Json : Type 0 where
    null : Json
    bool : Bool → Json
    num : ℤ → ℕ → Json
    str : String → Json
    list : Items → Json
    dict : Fields → Json

  pub data Items : Type 0 where
    nil : Items
    cons : Json → Items → Items

  pub data Fields : Type 0 where
    end : Fields
    field : String → Json → Fields → Fields

-- `d.get(k)`
unfoldable pub get : String → Fields → Option Json
get k end = none
get k (field j v d) = if j == k then some v else get k d

-- `bool(value)`
abbrev pub truthy : Json → Bool
truthy null = false
truthy (bool b) = b
truthy (num m s) = not (is_zero m)
truthy (str s) = not (s == "")
truthy (list nil) = false
truthy (list (cons v vs)) = true
truthy (dict end) = false
truthy (dict (field k v d)) = true

-- `bool(d.get(k))`
abbrev pub flag : String → Fields → Bool
flag k d = elim (get k d) [ none ↦ false | some v ↦ truthy v ]
