-- ===== src/Identifiers/Letters.antt =====
-- The letters of the alphabet stand for the digits of base 32.
use sdp_studio.Prelude.{
  ℕ, zero, suc, ◌+◌, ◌≤◌, ◌<◌, ◌≡◌, refl, inl, inr, Bool-cases, Bool, true, List, [], ◌∷◌, Memᴰ,
  all, true_of_all, eqb, arith, if◌then◌else◌,
}
use sdp_studio.Identifiers.{codes, alphabet, letter, upper, is_allowed}

-- The place of a letter in the alphabet.
place_in : List ℕ → ℕ → ℕ
place_in [] c = 0
place_in (a ∷ cs) c = let rest = place_in cs c in if eqb a c then 0 else suc rest

unfoldable pub digit : ℕ → ℕ
unfolding place_in codes
digit c = place_in (codes alphabet) c

digits_from : ℕ → ℕ → List ℕ
digits_from zero k = []
digits_from (suc n) k = k ∷ digits_from n (suc k)

mem_from : (n k d : ℕ) → k ≤ d → d < k + n → Memᴰ d (digits_from n k)
unfolding digits_from
mem_from zero k d low high = absurd (omega arith)
mem_from (suc n) k d low high = elim (Bool-cases (eqb d k)) [
  | inl here ↦ Memᴰ.head (ground arith)
  | inr off ↦ Memᴰ.tail (mem_from n (suc k) d (ground arith) (omega arith))
]

every_digit : (p : ℕ → Bool) → all p (digits_from 32 0) ≡ true → (d : ℕ) → d < 32 → p d ≡ true
every_digit p h d small =
    true_of_all p d (digits_from 32 0) h (mem_from 32 0 d (omega arith) (omega arith))

same_number : (m n : ℕ) → eqb m n ≡ true → m ≡ n
same_number m n h = ground arith

digit-letter_test : (d : ℕ) → d < 32 → eqb (digit (letter d)) d ≡ true
digit-letter_test =
    every_digit (λ d. eqb (digit (letter d)) d) (unfold digits_from digit letter in refl)

pub is_allowed-letter : (d : ℕ) → d < 32 → is_allowed (upper (letter d)) ≡ true
is_allowed-letter =
    every_digit (λ d. is_allowed (upper (letter d))) (unfold digits_from is_allowed letter in refl)

pub digit-letter : (d : ℕ) → d < 32 → digit (letter d) ≡ d
digit-letter d small = same_number (digit (letter d)) d (digit-letter_test d small)
