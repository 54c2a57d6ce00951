-- ===== src/Identifiers/Spelling.antt =====
-- A new identifier is well formed and spells its number.
use sdp_studio.Prelude.{
  ℕ, zero, suc, ◌+◌, ◌*◌, ◌/◌, ◌%◌, ◌^◌, ◌<◌, ◌≡◌, refl, ap, ◌∙◌, Bool, true, ◌&&◌, List, [], ◌∷◌,
  ◌++◌, map, all, length, length-append, arith,
}
use sdp_studio.Identifiers.{
  letter, reversed, chars, ulid_value, new_ulid, upper, is_allowed, is_ulid,
}
use sdp_studio.Identifiers.Letters.{digit, digit-letter, is_allowed-letter}

-- The number that letters spell in base 32, the highest digit first.
unfoldable pub number : ℕ → List ℕ → ℕ
unfolding digit
number high [] = high
number high (c ∷ cs) = number (32 * high + digit c) cs

number-append :
    (high : ℕ) (cs : List ℕ) (c : ℕ) → number high (cs ++ c ∷ []) ≡ 32 * number high cs + digit c
unfolding number
number-append high [] c = refl
number-append high (d ∷ cs) c = number-append (32 * high + digit d) cs c

-- What fits into `n` digits.
cap : ℕ → ℕ
cap zero = 1
cap (suc n) = 32 * cap n

join_digits : (high low value : ℕ) → high ≡ value / 32 → low ≡ value % 32 → 32 * high + low ≡ value
join_digits high low value h l = omega arith

fits : (now randomness : ℕ) → randomness < 2 ^ 80 → ulid_value now randomness < cap 26
unfolding cap
fits now randomness small = omega arith

spelled : (n value : ℕ) → value < cap n → number 0 (reversed (chars n value)) ≡ value
unfolding cap chars reversed number
spelled zero value small = omega arith
spelled (suc n) value small =
    number-append 0 (reversed (chars n (value / 32))) (letter (value % 32))
    ∙ join_digits (number 0 (reversed (chars n (value / 32)))) (digit (letter (value % 32))) value
        (spelled n (value / 32) (omega arith)) (digit-letter (value % 32) (omega arith))

-- If the random number has 80 bits, a new identifier spells, in base 32, the milliseconds, of which 48
-- bits count, and behind them the random bits.
pub new_ulid-number :
    (now randomness : ℕ)
    → randomness < 2 ^ 80
    → number 0 (new_ulid now randomness) ≡ (now % 2 ^ 48) * 2 ^ 80 + randomness
unfolding new_ulid
new_ulid-number now randomness small =
    spelled 26 (ulid_value now randomness) (fits now randomness small)

length-chars : (n value : ℕ) → length (chars n value) ≡ n
unfolding chars
length-chars zero value = refl
length-chars (suc n) value = ap suc (length-chars n (value / 32))

length-reversed : (cs : List ℕ) → length (reversed cs) ≡ length cs
unfolding reversed
length-reversed [] = refl
length-reversed (c ∷ cs) = omega (arith, length-append (reversed cs) (c ∷ []), length-reversed cs)

all-append :
    (p : ℕ → Bool) (xs : List ℕ) (y : ℕ)
    → all p (map upper (xs ++ y ∷ [])) ≡ all p (map upper xs) && p (upper y)
all-append p [] y = ground arith
all-append p (x ∷ xs) y = ground (arith, all-append p xs y)

all-chars : (n value : ℕ) → all is_allowed (map upper (reversed (chars n value))) ≡ true
unfolding chars reversed
all-chars zero value = refl
all-chars (suc n) value = ground (
  arith,
  all-append is_allowed (reversed (chars n (value / 32))) (letter (value % 32)),
  all-chars n (value / 32),
  is_allowed-letter (value % 32) (omega arith),
)

-- A new identifier passes the test of identifiers.
pub new_ulid-is_ulid : (now randomness : ℕ) → is_ulid (new_ulid now randomness) ≡ true
unfolding is_ulid new_ulid
new_ulid-is_ulid now randomness =
    let value = ulid_value now randomness in
    let size = length-reversed (chars 26 value) ∙ length-chars 26 value in
    ground (arith, size, all-chars 26 value)
