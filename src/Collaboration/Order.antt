-- ===== src/Collaboration/Order.antt =====
-- Rows in the order of their numbers, and lists of rows put together.
use sdp_studio.Prelude.{
  ℕ, ◌≤◌, ◌<◌, ◌≡◌, refl, ap, ◌∙◌, Bool, Bool-cases, inl, inr, not, List, [], ◌∷◌, ◌++◌, keep,
  arith, leb,
}
use sdp_studio.Collaboration.{Event, Row, max, last_seq, updates, place_row, by_seq}

-- Rows in the order of their numbers, each above `k`.
pub data Above : ℕ → List Row → Type 0 where
  done : {k : ℕ} → Above k []
  next : {k : ℕ} {r : Row} {rows : List Row} → k < r.seq → Above r.seq rows → Above k (r ∷ rows)

pub Above-weaker : (k j : ℕ) (rows : List Row) → j ≤ k → Above k rows → Above j rows
Above-weaker k j [] h done = done
Above-weaker k j (r ∷ rows) h (next above rest) = next (omega arith) rest

pub keep-Above : (p : Row → Bool) (k : ℕ) (rows : List Row) → Above k rows → Above k (keep p rows)
keep-Above p k [] done = done
keep-Above p k (r ∷ rows) (next above rest) = elim (Bool-cases (p r)) [
  | inl kept ↦ rw kept (next above (keep-Above p r.seq rows rest))
  | inr dropped ↦
      rw dropped (Above-weaker r.seq k (keep p rows) (omega arith) (keep-Above p r.seq rows rest))
]

pub place_row-Above :
    (k : ℕ) (r : Row) (rows : List Row) → Above r.seq rows → place_row r rows ≡ r ∷ rows
unfolding place_row
place_row-Above k r [] done = refl
place_row-Above k r (q ∷ rows) (next above rest) = ground arith

pub by_seq-Above : (k : ℕ) (rows : List Row) → Above k rows → by_seq rows ≡ rows
unfolding by_seq
by_seq-Above k [] done = refl
by_seq-Above k (r ∷ rows) (next above rest) =
    ap (place_row r) (by_seq-Above r.seq rows rest) ∙ place_row-Above k r rows rest

pub Above-append :
    (k : ℕ) (rows : List Row) (r : Row)
    → Above k rows
    → k < r.seq
    → last_seq rows < r.seq
    → Above k (rows ++ r ∷ [])
unfolding last_seq
Above-append k [] r done low below = next low done
Above-append k (q ∷ rows) r (next above rest) low below =
    next above (Above-append q.seq rows r rest (ground arith) (ground arith))

pub updates-append : (rows more : List Row) → updates (rows ++ more) ≡ updates rows ++ updates more
unfolding updates
updates-append [] more = refl
updates-append (r ∷ rows) more = ground (arith, updates-append rows more)

pub keep-append : (p : Row → Bool) (xs ys : List Row) → keep p (xs ++ ys) ≡ keep p xs ++ keep p ys
keep-append p [] ys = refl
keep-append p (x ∷ xs) ys = ground (arith, keep-append p xs ys)

pub append_assoc : (xs ys zs : List Event) → (xs ++ ys) ++ zs ≡ xs ++ (ys ++ zs)
append_assoc [] ys zs = refl
append_assoc (x ∷ xs) ys zs = ap (λ l. x ∷ l) (append_assoc xs ys zs)

pub append-none : (xs : List Event) → xs ++ [] ≡ xs
append-none [] = refl
append-none (x ∷ xs) = ap (λ l. x ∷ l) (append-none xs)

pub uncovered_none :
    (rows : List Row) (seq : ℕ) → last_seq rows ≤ seq → keep (λ r. not (leb r.seq seq)) rows ≡ []
unfolding last_seq
uncovered_none [] seq h = refl
uncovered_none (r ∷ rows) seq h = ground (arith, uncovered_none rows seq)

pub last-append :
    (rows : List Row) (r : Row) → last_seq (rows ++ r ∷ []) ≡ max (last_seq rows) r.seq
unfolding last_seq
last-append [] r = ground arith
last-append (q ∷ rows) r = ground (arith, last-append rows r)
