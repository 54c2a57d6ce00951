-- ===== src/Tests/Auth.antt =====
-- A service with one user, and a sequence of wrong passwords.
use sdp_studio.Prelude.{
  ◌+◌, ◌*◌, ◌≤◌, String, ◌≡◌, ◌⊎◌, refl, true, false, [], ◌∷◌, none, arith, ◌==◌,
}
use sdp_studio.Prelude.Dict.{lookup}
use sdp_studio.Auth.{Crypto, AuthService, refused, session, is_locked, is_accepted, add_user, login}
use sdp_studio.Auth.Throttle.{Attempts, Guesses, stop, guess, tried, tried-bound}
use sdp_studio.Auth.Access.{KnownRoles, add_user-KnownRoles, login_exact}

-- A cipher that keeps the password in clear.
abbrev plain : Crypto
plain = record {
  hash = λ password. "$argon2id$ of a password";
  verify = λ encoded password. password == "correct horse";
  sign = λ username role expiry. username;
}

abbrev nobody : AuthService
nobody = record { users = []; revoked = []; login_failures = [] }

nobody-KnownRoles : KnownRoles nobody
unfolding KnownRoles lookup
nobody-KnownRoles = λ name u h. cc

abbrev service : AuthService
service = (add_user plain "ada" "correct horse" "editor" nobody).1

service-KnownRoles : KnownRoles service
service-KnownRoles =
    add_user-KnownRoles plain "ada" "correct horse" "editor" nobody nobody-KnownRoles

login_works : (login plain 5 "ada" "correct horse" service).0 ≡ session "ada"
unfolding login add_user lookup
login_works = refl

-- Six wrong passwords in six seconds: five are compared.
abbrev six : Attempts
six =
    (1000000, "a")
    ∷ (2000000, "b")
    ∷ (3000000, "c")
    ∷ (4000000, "d")
    ∷ (5000000, "e")
    ∷ (6000000, "f")
    ∷ []

five_tried : tried plain "ada" six service ≡ 5
unfolding tried login is_locked add_user lookup
five_tried = refl

six-Guesses : Guesses plain "ada" service 6000000 0 six
unfolding is_accepted add_user lookup
six-Guesses = guess {password = "a"} (omega arith) (omega arith) refl (
    guess {password = "b"} (omega arith) (omega arith) refl (
      guess {password = "c"} (omega arith) (omega arith) refl (
        guess {password = "d"} (omega arith) (omega arith) refl (
          guess {password = "e"} (omega arith) (omega arith) refl
            (guess {password = "f"} (omega arith) (omega arith) refl stop)))))

no_failures_yet : lookup "ada" service.login_failures ≡ none
unfolding add_user lookup
no_failures_yet = refl

tried-bound_example :
    (tried plain "ada" six service ≤ 5)
    ⊎ (0 + 30000000 * tried plain "ada" six service ≤ 6000000 + 150000000)
tried-bound_example = tried-bound plain "ada" service 0 6000000 six no_failures_yet six-Guesses

login_exact_example :
    ((is_locked 5 "ada" service ≡ false)
      × (is_accepted plain "ada" "correct horse" service ≡ true)
      × (token : String) × ((login plain 5 "ada" "correct horse" service).0 ≡ session token)
      × (lookup "ada" (login plain 5 "ada" "correct horse" service).1.login_failures ≡ none))
    ⊎ (((is_locked 5 "ada" service ≡ true)
          ⊎ (is_accepted plain "ada" "correct horse" service ≡ false))
        × ((login plain 5 "ada" "correct horse" service).0 ≡ refused))
login_exact_example = login_exact plain 5 "ada" "correct horse" service service-KnownRoles
