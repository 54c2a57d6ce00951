-- ===== src/Scheduler/Claims.antt =====
-- However many servers claim the firings of a schedule, each firing is granted to one.
use sdp_studio.Prelude.{
  ℕ, ◌+◌, ◌≤◌, ◌<◌, String, Bool, Bool-cases, true, false, List, [], ◌∷◌, ◌&&◌, count, leb, eqb,
  ◌==◌, if◌then◌else◌, ◌≡◌, refl, inl, inr, arith, eq_iff, subst,
}
use sdp_studio.Scheduler.{Schedule}
use sdp_studio.Scheduler.Store.{ScheduleChange, update_schedule, claim_schedule}
use sdp_studio.Scheduler.Held.{
  id_is, unheld, serve_update-unheld, serve_update-id, serve_claim-id, serve_claim-unheld,
  refused_claim, granted_claim,
}

-- What the servers ask of the table, in the order of the transactions.
pub data Request : Type 0 where
  claim : String → ℕ → Request
  update : String → List ScheduleChange → Request

unfoldable pub serve : Request → List Schedule → List Schedule
serve (claim id marker) rows = (claim_schedule id marker rows).1
serve (update id updates) rows = (update_schedule id updates rows).1

is_grant : String → ℕ → Request → List Schedule → Bool
is_grant id m (claim j k) rows = j == id && eqb k m && (claim_schedule j k rows).0
is_grant id m (update j updates) rows = false

-- How often a firing is granted.
unfoldable pub grants : String → ℕ → List Request → List Schedule → ℕ
unfolding is_grant serve
grants id m [] rows = 0
grants id m (r ∷ requests) rows =
    (if is_grant id m r rows then 1 else 0) + grants id m requests (serve r rows)

-- The markers of the claims of one schedule never go back.
unfoldable pub ascending : String → ℕ → List Request → Bool
ascending id low [] = true
ascending id low (update j updates ∷ requests) = ascending id low requests
ascending id low (claim j k ∷ requests) =
    let next = ascending id k requests in
    let same = ascending id low requests in if j == id then leb low k && next else same

grants_past :
    (id : String) (m low : ℕ) (requests : List Request) (rows : List Schedule)
    → ascending id low requests ≡ true
    → m < low
    → grants id m requests rows ≡ 0
unfolding grants ascending is_grant
grants_past id m low [] rows up past = refl
grants_past id m low (update j updates ∷ requests) rows up past =
    let rest = grants_past id m low requests (serve (update j updates) rows) up past in
    ground (arith, rest)
grants_past id m low (claim j k ∷ requests) rows up past = elim (Bool-cases (j == id)) [
  | inl here ↦
      let rest =
        grants_past id m k requests (serve (claim j k) rows) (ground arith) (ground arith) in
      ground (arith, rest)
  | inr off ↦
      let rest = grants_past id m low requests (serve (claim j k) rows) (ground arith) past in
      ground (arith, rest)
]

grants_held :
    (id : String) (m : ℕ) (requests : List Request) (rows : List Schedule)
    → ascending id m requests ≡ true
    → count (unheld id m) rows ≡ 0
    → grants id m requests rows ≡ 0
unfolding grants ascending is_grant serve
grants_held id m [] rows up held = refl
grants_held id m (update j updates ∷ requests) rows up held =
    let rest =
      grants_held id m requests (update_schedule j updates rows).1 up
        (serve_update-unheld id m j updates rows held) in
    ground (arith, rest)
grants_held id m (claim j k ∷ requests) rows up held =
    let rows2 = (claim_schedule j k rows).1 in
    elim (Bool-cases (j == id)) [
      | inr off ↦
          let rest =
            grants_held id m requests rows2 (ground arith)
              (serve_claim-unheld id m j k rows (λ on. ground arith) held) in
          ground (arith, rest)
      | inl here ↦ elim (Bool-cases (eqb k m)) [
        | inr past ↦
            let rest = grants_past id m k requests rows2 (ground arith) (ground arith) in
            ground (arith, rest)
        | inl same ↦
            let e : k ≡ m = ground arith in
            let rest =
              grants_held id m requests rows2 (ground arith)
                (serve_claim-unheld id m j k rows (λ on. e) held) in
            let refused : (claim_schedule j k rows).0 ≡ false =
              refused_claim id j m k rows ((eq_iff j id).0 here) e held in
            ground (arith, rest, refused)
      ]
    ]

-- If there is at most one row of the id, and the markers of the claims of it never go back, then
-- each firing of the schedule is granted at most once, whatever else is claimed or updated meanwhile.
pub claim_schedule-once :
    (id : String) (m low : ℕ) (requests : List Request) (rows : List Schedule)
    → count (id_is id) rows ≤ 1
    → ascending id low requests ≡ true
    → grants id m requests rows ≤ 1
unfolding grants ascending is_grant serve
claim_schedule-once id m low [] rows one up = omega arith
claim_schedule-once id m low (update j updates ∷ requests) rows one up =
    let rest =
      claim_schedule-once id m low requests (update_schedule j updates rows).1
        (omega (arith, serve_update-id id j updates rows)) up in
    ground (arith, rest)
claim_schedule-once id m low (claim j k ∷ requests) rows one up =
    let rows2 = (claim_schedule j k rows).1 in
    let one2 : count (id_is id) rows2 ≤ 1 = omega (arith, serve_claim-id id j k rows) in
    elim (Bool-cases (j == id)) [
      | inr off ↦
          let rest = claim_schedule-once id m low requests rows2 one2 (ground arith) in
          ground (arith, rest)
      | inl here ↦
          let next : ascending id k requests ≡ true = ground arith in
          elim (Bool-cases (eqb k m && (claim_schedule j k rows).0)) [
            | inr off ↦
                let rest = claim_schedule-once id m k requests rows2 one2 next in
                ground (arith, rest)
            | inl granted ↦
                let e : k ≡ m = ground arith in
                let held : count (unheld id m) rows2 ≡ 0 =
                  granted_claim id j m k rows ((eq_iff j id).0 here) e one (ground arith) in
                let rest =
                  grants_held id m requests rows2
                    (subst (λ n. ascending id n requests ≡ true) e next) held in
                ground (arith, rest)
          ]
    ]
