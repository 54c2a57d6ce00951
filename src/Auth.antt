-- ===== src/Auth.antt =====
-- `AuthService` of python/sdpstudio_server/auth.py: users, logins with their lockout, and revoked
-- sessions. Argon2 and the signing of a session are parameters. Times are in microseconds.
pub mod Throttle
pub mod Access
use package.text.Mathlib.Text.{starts_with}
use sdp_studio.Prelude.{
  ℕ, suc, ◌+◌, ◌/◌, String, Bool, true, false, List, [], ◌∷◌, Option, none, some, not, ◌&&◌,
  contains, leb, ltb, if◌then◌else◌, ◌==◌,
}
use sdp_studio.Prelude.Dict.{Dict, lookup, insert, get_or}

abbrev pub roles : List String
roles = "viewer" ∷ "editor" ∷ "admin" ∷ []

-- `role in ROLES`
unfoldable pub is_role : String → Bool
is_role role = contains roles role

pub record User : Type 0 where
  pub username : String
  pub role : String
  pub password_hash : String

-- `argon2.PasswordHasher` and the signing of `issue_session`: `verify` is false where the source
-- catches an exception, and `sign` takes the user, the role and the second at which a session ends.
pub record Crypto : Type 0 where
  pub hash : String → String
  pub verify : String → String → Bool
  pub sign : String → String → ℕ → String

-- The failures of a user name: how many, and the time until which its logins are refused.
pub record Failures : Type 0 where
  pub count : ℕ
  pub locked_until : ℕ

pub record AuthService : Type 0 where
  pub users : Dict User
  pub revoked : List String
  pub login_failures : Dict Failures

-- `d.pop(k, None)`
unfoldable pub remove {ℓ} : {V : Type ℓ} → String → Dict V → Dict V
remove k [] = []
remove k ((j, v) ∷ d) = let rest = remove k d in if j == k then rest else (j, v) ∷ rest

-- `len(text)`
unfoldable pub len : String → ℕ
len String.[] = 0
len (String.◌∷◌ c s) = suc (len s)

pub data Registration : Type 0 where
  unknown_role : Registration
  short_password : Registration
  registered : User → Registration

unfoldable pub add_hashed_user : String → String → String → AuthService → Registration × AuthService
unfolding insert is_role
add_hashed_user username password_hash role s =
    let user : User = record { username = username; role = role; password_hash = password_hash } in
    if is_role role
    then (registered user, record s { users = insert username user s.users })
    else (unknown_role, s)

-- `add_user`, which hashes the password after it has checked the role
unfoldable pub add_user :
    Crypto → String → String → String → AuthService → Registration × AuthService
unfolding add_hashed_user len is_role
add_user crypto username password role s =
    if is_role role
    then (if ltb (len password) 12
        then (short_password, s)
        else add_hashed_user username (crypto.hash password) role s)
    else (unknown_role, s)

-- `VerificationError`, which Argon2 raises on a fault of its own and the source does not catch, is left
-- out.
unfoldable pub verify_password : Crypto → String → String → Bool
verify_password crypto password encoded =
    starts_with encoded "$argon2id$" && crypto.verify encoded password

pub data Login : Type 0 where
  refused : Login
  session : String → Login
  role_error : Login

unfoldable pub issue_session : Crypto → String → String → ℕ → Login
unfolding is_role
issue_session crypto username role now =
    if is_role role then session (crypto.sign username role (now / 1000000 + 3600)) else role_error

abbrev pub no_failures : Failures
no_failures = record { count = 0; locked_until = 0 }

-- `locked_until > now`
unfoldable pub is_locked : ℕ → String → AuthService → Bool
is_locked now username s = ltb now (get_or username no_failures s.login_failures).locked_until

-- `user and self.verify_password(password, user.password_hash)`
unfoldable pub is_accepted : Crypto → String → String → AuthService → Bool
unfolding verify_password
is_accepted crypto username password s = elim (lookup username s.users) [
  | none ↦ false
  | some user ↦ verify_password crypto password user.password_hash
]

-- The failure of a login: from the fifth on, thirty seconds without another try.
unfoldable pub fail : ℕ → String → AuthService → AuthService
unfolding insert
fail now username s =
    let failures = suc (get_or username no_failures s.login_failures).count in
    record s {
      login_failures =
          insert username
            (record {
              count = failures;
              locked_until = if leb 5 failures then now + 30000000 else 0;
            })
            s.login_failures;
    }

unfoldable pub login : Crypto → ℕ → String → String → AuthService → Login × AuthService
unfolding is_locked is_accepted fail issue_session remove
login crypto now username password s =
    if is_locked now username s
    then (refused, s)
    else if is_accepted crypto username password s
    then (
      elim (lookup username s.users) [
        | none ↦ refused
        | some user ↦ issue_session crypto user.username user.role now
      ],
      record s { login_failures = remove username s.login_failures },
    )
    else (refused, fail now username s)

-- `revoke`: a set of tokens
unfoldable pub revoke : String → AuthService → AuthService
revoke token s =
    if token == ""
    then s
    else if contains s.revoked token
    then s
    else record s { revoked = token ∷ s.revoked }
