-- ===== src/Auth/Login/Refused.antt =====
-- api/src/services/auth-service.ts: which logins are refused, and what a refusal tells and changes.
use livechat.ApiError.{err, unauthorized, forbidden}
use livechat.Prelude.{
  ℕ, suc, ◌+◌, ◌*◌, ◌<◌, String, ◌≡◌, refl, ap, ◌∙◌, true, false, Option, none, some, List, [], ◌∷◌,
  ◌++◌, subst, arith, eq_iff, length, find, update,
}
use livechat.Auth.{User, AuthStore, Libraries, has_id, has_email, save_user, UserStatus}
use livechat.Auth.Lockout.{is_locked, increment_failed_attempts}
use livechat.Auth.Login.{LoginInput, Fresh, login}

module _ (lib : Libraries) where
  -- The account that a login is for.
  abbrev pub account : LoginInput → AuthStore → Option User
  account input db = find (has_email (lib.to_lower_case input.email)) db.users

  is_locked-free : (now : ℕ) (user : User) → user.locked_until ≡ none → is_locked now user ≡ false
  unfolding is_locked
  is_locked-free now user free = ground arith

  is_locked-fifth :
      (fifth now : ℕ) (user : User)
      → user.failed_login_attempts ≡ 4
      → now < fifth + 30 * 60 * 1000
      → is_locked now (increment_failed_attempts fifth user) ≡ true
  unfolding is_locked increment_failed_attempts
  is_locked-fifth fifth now user count soon = ground arith

  -- A locked account refuses every login, and the refusal changes nothing.
  login-locked :
      (now : ℕ) (fresh : Fresh) (input : LoginInput) (db : AuthStore) {user : User}
      → account input db ≡ some user
      → is_locked now user ≡ true
      → login lib now fresh input db
        ≡ (err (forbidden "Account is temporarily locked. Try again later."), db)
  unfolding login
  login-locked now fresh input db found locked = ground arith

  login-wrong :
      (now : ℕ) (fresh : Fresh) (input : LoginInput) (db : AuthStore) {user : User}
      → account input db ≡ some user
      → is_locked now user ≡ false
      → user.status ≡ UserStatus.active
      → lib.compare input.password user.password_hash ≡ false
      → login lib now fresh input db ≡ (
        err (unauthorized "Invalid email or password"),
        save_user user.id (increment_failed_attempts now) db,
      )
  unfolding login
  login-wrong now fresh input db found open_account active wrong = ground arith

  -- A login with an unknown email and one with a wrong password are refused in the same words, so
  -- neither tells whether an email is registered.
  pub login-same_refusal :
      (now : ℕ) (fresh fresh' : Fresh) (known unknown : LoginInput) (db : AuthStore) {user : User}
      → account known db ≡ some user
      → is_locked now user ≡ false
      → user.status ≡ UserStatus.active
      → lib.compare known.password user.password_hash ≡ false
      → account unknown db ≡ none
      → (login lib now fresh known db).0 ≡ (login lib now fresh' unknown db).0
  unfolding login
  login-same_refusal now fresh fresh' known unknown db found open_account active wrong missing =
      ground arith

  account-save :
      (input : LoginInput) (now : ℕ) (users : List User) {user : User}
      → find (has_email (lib.to_lower_case input.email)) users ≡ some user
      → find
          (has_email (lib.to_lower_case input.email))
          (update (has_id user.id) (increment_failed_attempts now) users)
        ≡ some (increment_failed_attempts now user)
  unfolding find update increment_failed_attempts
  account-save input now [] found = ground arith
  account-save input now (u ∷ users) {user} found =
      ground (arith, eq_iff u.id user.id, account-save input now users {user = user})

  -- The logins with one input, at the instants given.
  unfoldable pub tries : Fresh → LoginInput → List ℕ → AuthStore → AuthStore
  tries fresh input [] db = db
  tries fresh input (t ∷ ts) db = tries fresh input ts (login lib t fresh input db).1

  -- An active account that is not locked, with `n` failed logins behind it, and a wrong password.
  abbrev pub Failing : ℕ → LoginInput → AuthStore → Type 0
  Failing n input db =
      (user : User) × (account input db ≡ some user)
      × (user.locked_until ≡ none)
      × (user.status ≡ UserStatus.active)
      × (lib.compare input.password user.password_hash ≡ false)
      × (user.failed_login_attempts ≡ n)

  login-account :
      (t : ℕ) (fresh : Fresh) (input : LoginInput) (db : AuthStore) {user : User}
      → account input db ≡ some user
      → user.locked_until ≡ none
      → user.status ≡ UserStatus.active
      → lib.compare input.password user.password_hash ≡ false
      → account input (login lib t fresh input db).1 ≡ some (increment_failed_attempts t user)
  login-account t fresh input db {user} found free active wrong =
      ap (λ r. account input r.1)
        (login-wrong t fresh input db found (is_locked-free t user free) active wrong)
      ∙ account-save input t db.users found

  login-Failing :
      (n : ℕ) (t : ℕ) (fresh : Fresh) (input : LoginInput) (db : AuthStore)
      → suc n < 5
      → Failing n input db
      → Failing (suc n) input (login lib t fresh input db).1
  unfolding increment_failed_attempts
  login-Failing n t fresh input db few (user, found, free, active, wrong, count) = (
    increment_failed_attempts t user,
    login-account t fresh input db found free active wrong,
    ground arith,
    active,
    wrong,
    ap suc count,
  )

  tries-Failing :
      (n : ℕ) (fresh : Fresh) (input : LoginInput) (ts : List ℕ) (db : AuthStore)
      → n + length ts < 5
      → Failing n input db
      → Failing (n + length ts) input (tries fresh input ts db)
  unfolding tries
  tries-Failing n fresh input [] db few h =
      let e : n ≡ n + 0 = omega arith in subst (λ k. Failing k input db) e h
  tries-Failing n fresh input (t ∷ ts) db few h =
      let db' = (login lib t fresh input db).1 in
      let e : suc n + length ts ≡ n + suc (length ts) = omega arith in
      subst (λ k. Failing k input (tries fresh input ts db')) e
        (tries-Failing (suc n) fresh input ts db' (omega arith)
          (login-Failing n t fresh input db (omega arith) h))

  tries-append :
      (fresh : Fresh) (input : LoginInput) (ts : List ℕ) (t : ℕ) (db : AuthStore)
      → tries fresh input (ts ++ t ∷ []) db ≡ (login lib t fresh input (tries fresh input ts db)).1
  unfolding tries
  tries-append fresh input [] t db = refl
  tries-append fresh input (s ∷ ts) t db =
      tries-append fresh input ts t (login lib s fresh input db).1

  -- After five failed logins in a row the account is locked for thirty minutes from the fifth: every
  -- login in that time is refused, whatever the password, and changes nothing.
  pub login-locked_out :
      (fresh : Fresh) (input : LoginInput) (ts : List ℕ) (fifth now : ℕ) (db : AuthStore)
      → length ts ≡ 4
      → Failing 0 input db
      → now < fifth + 30 * 60 * 1000
      → (password : String)
      → login lib now fresh
          (record input { password = password })
          (tries fresh input (ts ++ fifth ∷ []) db)
        ≡ (
          err (forbidden "Account is temporarily locked. Try again later."),
          tries fresh input (ts ++ fifth ∷ []) db,
        )
  login-locked_out fresh input ts fifth now db four h soon password =
      let before = tries fresh input ts db in
      let (user, found, free, active, wrong, count) =
        tries-Failing 0 fresh input ts db (omega arith) h in
      let locked = login-account fifth fresh input before found free active wrong in
      login-locked now fresh (record input { password = password })
        (tries fresh input (ts ++ fifth ∷ []) db)
        (ap (account input) (tries-append fresh input ts fifth db) ∙ locked)
        (is_locked-fifth fifth now user (omega (arith, count)) soon)
