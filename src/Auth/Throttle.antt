-- ===== src/Auth/Throttle.antt =====
-- How many passwords somebody can try at one user name in a given time.
use sdp_studio.Prelude.{
  ℕ, suc, ◌+◌, ◌*◌, ◌≤◌, ◌<◌, String, ◌≡◌, ◌⊎◌, refl, ap, ◌∙◌, Bool-cases, inl, inr, true, false,
  List, [], ◌∷◌, Option, none, some, if◌then◌else◌, arith, leb, eq_refl, subst,
}
use sdp_studio.Prelude.Dict.{Dict, lookup, get_or, lookup-insert}
use sdp_studio.Auth.{
  Crypto, User, verify_password, Failures, AuthService, is_locked, is_accepted, fail, login,
  no_failures,
}

-- An attempt: when, and with which password.
abbrev pub Attempts : Type 0
Attempts = List (ℕ × String)

module _ (crypto : Crypto) (username : String) where
  -- The number of attempts whose password is compared at all.
  unfoldable pub tried : Attempts → AuthService → ℕ
  tried [] s = 0
  tried ((now, password) ∷ more) s =
      (if is_locked now username s then 0 else 1)
      + tried more (login crypto now username password s).1

  -- Wrong passwords, in the order of their times, none before `start` or after `finish`.
  pub data Guesses (s : AuthService) (finish : ℕ) : ℕ → Attempts → Type 0 where
    stop : {start : ℕ} → Guesses s finish start []
    guess :
        {start now : ℕ} {password : String} {more : Attempts}
        → start ≤ now
        → now ≤ finish
        → is_accepted crypto username password s ≡ false
        → Guesses s finish now more
        → Guesses s finish start ((now, password) ∷ more)

  abbrev failures_of : AuthService → Failures
  failures_of s = get_or username no_failures s.login_failures

  -- Who is accepted hangs on the users alone.
  same_users :
      (s t : AuthService) (password : String)
      → t.users ≡ s.users
      → is_accepted crypto username password t ≡ is_accepted crypto username password s
  unfolding is_accepted
  same_users s t password e =
      ap
        (λ (users : Dict User). elim (lookup username users) [
          | none ↦ false
          | some user ↦ verify_password crypto password user.password_hash
        ])
        e

  failed : ℕ → ℕ → Failures
  failed now count = record {
    count = count;
    locked_until = if leb 5 count then now + 30000000 else 0;
  }

  fail_failures :
      (now : ℕ) (s : AuthService)
      → failures_of (fail now username s) ≡ failed now (suc (failures_of s).count)
  unfolding fail failed
  fail_failures now s =
      ap (λ (o : Option Failures). elim o [ none ↦ no_failures | some f ↦ f ])
        (lookup-insert username username (failed now (suc (failures_of s).count)) s.login_failures
          ∙ ap
              (λ b.
                if b
                then some (failed now (suc (failures_of s).count))
                else lookup username s.login_failures)
              (eq_refl username))

  login_locked :
      (now : ℕ) (password : String) (s : AuthService)
      → is_locked now username s ≡ true
      → (login crypto now username password s).1 ≡ s
  unfolding login
  login_locked now password s h = rw h refl

  login_wrong :
      (now : ℕ) (password : String) (s : AuthService)
      → is_locked now username s ≡ false
      → is_accepted crypto username password s ≡ false
      → (login crypto now username password s).1 ≡ fail now username s
  unfolding login
  login_wrong now password s h w = rw (h, w) refl

  fail-users : (now : ℕ) (s : AuthService) → (fail now username s).users ≡ s.users
  unfolding fail
  fail-users now s = refl

  -- What may still be tried: after the fifth failure one attempt in thirty seconds, and before it the
  -- rest of the five besides.
  abbrev Allowed : Failures → (start finish n : ℕ) → Type 0
  Allowed f start finish n =
      (5 ≤ f.count → (n ≡ 0) ⊎ (f.locked_until + 30000000 * n ≤ finish + 30000000))
      × (f.count < 5 → (f.count + n ≤ 5) ⊎ (start + 30000000 * (f.count + n) ≤ finish + 150000000))

  Allowed-wait :
      (f : Failures) (start now finish n : ℕ)
      → start ≤ now
      → Allowed f now finish n
      → Allowed f start finish (0 + n)
  Allowed-wait f start now finish n h a =
      (λ many. ground (arith, a.0 many), λ few. ground (arith, a.1 few))

  Allowed-try :
      (f : Failures) (start now finish n : ℕ)
      → start ≤ now
      → now ≤ finish
      → f.locked_until ≤ now
      → Allowed (failed now (suc f.count)) now finish n
      → Allowed f start finish (1 + n)
  unfolding failed
  Allowed-try f start now finish n h k unlocked a =
      (λ many. ground (arith, a.0), λ few. ground (arith, a.0, a.1))

  unlocked :
      (now : ℕ) (s : AuthService)
      → is_locked now username s ≡ false
      → (failures_of s).locked_until ≤ now
  unfolding is_locked
  unlocked now s h = ground arith

  bound :
      (s t : AuthService) (start finish : ℕ) (attempts : Attempts)
      → t.users ≡ s.users
      → Guesses s finish start attempts
      → Allowed (failures_of t) start finish (tried attempts t)
  unfolding tried
  bound s t start finish [] e stop = (λ many. inl refl, λ few. inl (omega arith))
  bound s t start finish ((now, password) ∷ more) e (guess late early wrong rest) =
      elim (Bool-cases (is_locked now username t)) [
        | inl locked ↦
            rw (locked, login_locked now password t locked)
              (Allowed-wait (failures_of t) start now finish (tried more t) late
                (bound s t now finish more e rest))
        | inr free ↦
            let wrong_here = same_users s t password e ∙ wrong in
            let later = bound s (fail now username t) now finish more (fail-users now t ∙ e) rest in
            rw (free, login_wrong now password t free wrong_here)
              (Allowed-try (failures_of t) start now finish (tried more (fail now username t)) late
                early (unlocked now t free)
                (subst (λ f. Allowed f now finish (tried more (fail now username t)))
                  (fail_failures now t) later))
      ]

  clean_count :
      (s : AuthService) → lookup username s.login_failures ≡ none → (failures_of s).count ≡ 0
  clean_count s h = ground arith

  -- Whatever wrong passwords are tried at a user name without failures between `start` and `finish`:
  -- of these attempts at most five are compared, and one more for every thirty seconds that have
  -- passed.
  pub tried-bound :
      (s : AuthService) (start finish : ℕ) (attempts : Attempts)
      → lookup username s.login_failures ≡ none
      → Guesses s finish start attempts
      → (tried attempts s ≤ 5) ⊎ (start + 30000000 * tried attempts s ≤ finish + 150000000)
  tried-bound s start finish attempts clean g =
      let count = clean_count s clean in
      let allowed = (bound s s start finish attempts refl g).1 (omega (arith, count)) in
      ground (arith, count, allowed)
