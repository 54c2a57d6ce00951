-- ===== src/Identifiers.antt =====
-- python/sdpstudio_core/ids.py: identifiers of 26 letters in base 32. A text is the list of its code
-- points; the clock and the random bytes are arguments, in milliseconds and as a number.
pub mod Letters
pub mod Spelling
use Prim.Native.Char.{code}
use sdp_studio.Prelude.{
  ℕ, zero, suc, ◌+◌, ◌*◌, ◌/◌, ◌%◌, ◌^◌, ◌-◌, String, Bool, true, false, List, [], ◌∷◌, ◌++◌, map,
  not, ◌&&◌, all, any, length, leb, eqb, if◌then◌else◌,
}

-- The code points of a text.
unfoldable pub codes : String → List ℕ
codes String.[] = []
codes (String.◌∷◌ c s) = code c ∷ codes s

abbrev pub alphabet : String
alphabet = "0123456789ABCDEFGHJKMNPQRSTVWXYZ"

-- `text[n]`, where no caller is out of range
unfoldable pub letter_at : List ℕ → ℕ → ℕ
letter_at [] n = 0
letter_at (c ∷ cs) zero = c
letter_at (c ∷ cs) (suc n) = letter_at cs n

unfoldable pub letter : ℕ → ℕ
unfolding codes letter_at
letter n = letter_at (codes alphabet) n

unfoldable pub reversed : List ℕ → List ℕ
reversed [] = []
reversed (c ∷ cs) = reversed cs ++ c ∷ []

-- The loop: `value & 31` is the rest by 32, and `value >>= 5` the quotient.
unfoldable pub chars : ℕ → ℕ → List ℕ
unfolding letter
chars zero value = []
chars (suc n) value = letter (value % 32) ∷ chars n (value / 32)

-- `(timestamp_ms << 80) | randomness`, with 80 random bits
abbrev pub ulid_value : ℕ → ℕ → ℕ
ulid_value now randomness = (now % 2 ^ 48) * 2 ^ 80 + randomness

unfoldable pub new_ulid : ℕ → ℕ → List ℕ
unfolding chars reversed
new_ulid now randomness = reversed (chars 26 (ulid_value now randomness))

-- `value.upper()`, for ASCII
abbrev pub upper : ℕ → ℕ
upper c = if leb 97 c && leb c 122 then c - 32 else c

unfoldable pub is_allowed : ℕ → Bool
unfolding codes
is_allowed c = any (λ a. eqb a c) (codes alphabet)

unfoldable pub is_ulid : List ℕ → Bool
unfolding is_allowed
is_ulid value = if not (eqb (length value) 26) then false else all is_allowed (map upper value)
