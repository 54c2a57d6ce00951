-- ===== src/Auth/Access.antt =====
-- Who gets a session, and whom a login concerns.
use sdp_studio.Prelude.{
  ℕ, suc, ◌+◌, ◌/◌, String, ◌≡◌, ◌⊎◌, refl, sym, ap, ◌∙◌, Bool, Bool-cases, inl, inr, true, false,
  [], ◌∷◌, Option, Option-cases, none, some, if◌then◌else◌, arith, ltb, leb, eq_iff, eq_refl, ◌==◌,
}
use sdp_studio.Prelude.Dict.{Dict, lookup, insert, get_or, lookup-insert}
use sdp_studio.Auth.{
  Crypto, User, is_role, AuthService, refused, session, issue_session, is_locked, is_accepted,
  verify_password, fail, login, no_failures, remove, len, add_user, add_hashed_user,
}

module _ {V : Type 0} where
  lookup-remove :
      (k j : String) (d : Dict V) → lookup j (remove k d) ≡ (if k == j then none else lookup j d)
  unfolding lookup remove
  lookup-remove k j [] = ground arith
  lookup-remove k j ((i, v) ∷ d) =
      ground (arith, eq_iff k j, eq_iff i k, eq_iff i j, lookup-remove k j d)

  lookup-insert_other :
      (k j : String) (v : V) (d : Dict V) → k == j ≡ false → lookup j (insert k v d) ≡ lookup j d
  lookup-insert_other k j v d h = ground (arith, lookup-insert k j v d)

  lookup-insert_cases :
      (k j : String) (v w : V) (d : Dict V)
      → lookup j (insert k v d) ≡ some w
      → (v ≡ w) ⊎ (lookup j d ≡ some w)
  lookup-insert_cases k j v w d h = elim (Bool-cases (k == j)) [
    | inl here ↦ inl (ground (arith, lookup-insert k j v d))
    | inr there ↦ inr (ground (arith, lookup-insert k j v d))
  ]

-- A login concerns the failures of its own user name only, and no user.
pub login-others :
    (crypto : Crypto) (now : ℕ) (username password other : String) (s : AuthService)
    → username == other ≡ false
    → (lookup other (login crypto now username password s).1.login_failures
        ≡ lookup other s.login_failures)
      × ((login crypto now username password s).1.users ≡ s.users)
unfolding login fail
login-others crypto now username password other s apart =
    elim (Bool-cases (is_locked now username s)) [
      | inl locked ↦ rw locked (refl, refl)
      | inr free ↦ elim (Bool-cases (is_accepted crypto username password s)) [
        | inl accepted ↦
            rw (free, accepted)
              (
                lookup-remove username other s.login_failures
                    ∙ ap (λ b. if b then none else lookup other s.login_failures) apart,
                refl,
              )
        | inr wrong ↦
            let failures = suc (get_or username no_failures s.login_failures).count in
            let locked_until = if leb 5 failures then now + 30000000 else 0 in
            rw (free, wrong)
              (
                lookup-insert_other username other
                    (record { count = failures; locked_until = locked_until }) s.login_failures
                    apart,
                refl,
              )
      ]
    ]

-- Every user has one of the roles.
unfoldable pub KnownRoles : AuthService → Type 0
KnownRoles s = (name : String) (u : User) → lookup name s.users ≡ some u → is_role u.role ≡ true

insert-KnownRoles :
    (user : User) (username : String) (s : AuthService)
    → is_role user.role ≡ true
    → KnownRoles s
    → KnownRoles (record s { users = insert username user s.users })
unfolding KnownRoles
insert-KnownRoles user username s ok known name u h =
    elim (lookup-insert_cases username name user u s.users h) [
      | inl new ↦ ap (λ (v : User). is_role v.role) (sym new) ∙ ok
      | inr old ↦ known name u old
    ]

abbrev entry : String → String → String → User
entry username password_hash role = record {
  username = username;
  role = role;
  password_hash = password_hash;
}

pub add_hashed_user-KnownRoles :
    (username password_hash role : String) (s : AuthService)
    → KnownRoles s
    → KnownRoles (add_hashed_user username password_hash role s).1
unfolding add_hashed_user
add_hashed_user-KnownRoles username password_hash role s known = elim (Bool-cases (is_role role)) [
  | inl ok ↦ rw ok (insert-KnownRoles (entry username password_hash role) username s ok known)
  | inr bad ↦ rw bad known
]

pub login-KnownRoles :
    (crypto : Crypto) (now : ℕ) (username password : String) (s : AuthService)
    → KnownRoles s
    → KnownRoles (login crypto now username password s).1
unfolding login fail KnownRoles
login-KnownRoles crypto now username password s known =
    elim (Bool-cases (is_locked now username s)) [
      | inl locked ↦ rw locked known
      | inr free ↦ elim (Bool-cases (is_accepted crypto username password s)) [
        | inl accepted ↦ rw (free, accepted) known
        | inr wrong ↦ rw (free, wrong) known
      ]
    ]

-- Registering a user, whatever comes of it, keeps every user in one of the roles.
pub add_user-KnownRoles :
    (crypto : Crypto) (username password role : String) (s : AuthService)
    → KnownRoles s
    → KnownRoles (add_user crypto username password role s).1
unfolding add_user add_hashed_user
add_user-KnownRoles crypto username password role s known = elim (Bool-cases (is_role role)) [
  | inr bad ↦ rw bad known
  | inl ok ↦ elim (Bool-cases (ltb (len password) 12)) [
    | inl short ↦ rw (ok, short) known
    | inr long ↦
        rw (ok, long)
          (insert-KnownRoles (entry username (crypto.hash password) role) username s ok known)
  ]
]

false_is_true : {A : Type 0} → false ≡ true → A
false_is_true h = cc

accepts : Crypto → String → Option User → Bool
accepts crypto password none = false
accepts crypto password (some user) = verify_password crypto password user.password_hash

-- The user of an accepted login.
accepted_user :
    (crypto : Crypto) (username password : String) (s : AuthService)
    → is_accepted crypto username password s ≡ true
    → (u : User) × (lookup username s.users ≡ some u)
unfolding is_accepted accepts
accepted_user crypto username password s h = elim (Option-cases (lookup username s.users)) [
  | inl missing ↦
      false_is_true (ap (λ (o : Option User). accepts crypto password o) (sym missing) ∙ h)
  | inr (u, found) ↦ (u, found)
]

issued :
    (crypto : Crypto) (u : User) (now : ℕ)
    → is_role u.role ≡ true
    → (token : String) × (issue_session crypto u.username u.role now ≡ session token)
unfolding issue_session
issued crypto u now ok = (crypto.sign u.username u.role (now / 1000000 + 3600), rw ok refl)

-- Where every user has a known role: a login gives a session exactly if the name is not locked and
-- its password is accepted, it then forgets the failures of the name, and it is refused otherwise.
pub login_exact :
    (crypto : Crypto) (now : ℕ) (username password : String) (s : AuthService)
    → KnownRoles s
    → ((is_locked now username s ≡ false)
        × (is_accepted crypto username password s ≡ true)
        × (token : String) × ((login crypto now username password s).0 ≡ session token)
        × (lookup username (login crypto now username password s).1.login_failures ≡ none))
      ⊎ (((is_locked now username s ≡ true) ⊎ (is_accepted crypto username password s ≡ false))
          × ((login crypto now username password s).0 ≡ refused))
unfolding login KnownRoles
login_exact crypto now username password s known = elim (Bool-cases (is_locked now username s)) [
  | inl locked ↦ inr (inl locked, rw locked refl)
  | inr free ↦ elim (Bool-cases (is_accepted crypto username password s)) [
    | inr wrong ↦ inr (inr wrong, rw (free, wrong) refl)
    | inl accepted ↦
        let (u, found) = accepted_user crypto username password s accepted in
        let (token, gives) = issued crypto u now (known username u found) in
        inl (
          free,
          accepted,
          token,
          rw (free, accepted, found) gives,
          rw (free, accepted)
              (lookup-remove username username s.login_failures
                ∙ ap (λ b. if b then none else lookup username s.login_failures)
                    (eq_refl username)),
        )
  ]
]
