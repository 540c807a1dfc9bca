-- ===== src/Auth/Password.antt =====
-- api/src/services/auth-service.ts: `verifyEmail`, `forgotPassword`, `resetPassword` and
-- `changePassword`, and the hook of api/src/models/user.ts that hashes a changed password.
pub mod Changed
use livechat.ApiError.{bad_request, not_found}
use livechat.Prelude.{
  ℕ, ◌+◌, ◌*◌, String, Bool, true, false, not, Option, none, some, List, [], ◌∷◌, ◌++◌, ◌==◌, ltb,
  find, same, if◌then◌else◌,
}
use livechat.Prelude.Action.{Action, pure, throw, gets, or_throw, throw_if, modify, ◌>>=◌, ◌>>◌}
use livechat.Auth.{
  User, Email, verification_email, password_reset_email, AuthStore, Libraries, has_email, find_user,
  save_user, destroy_sessions,
}

abbrev pub reset_ttl_ms : ℕ
reset_ttl_ms = 60 * 60 * 1000

abbrev pub send : Email → AuthStore → AuthStore
send email db = record db { outbox = db.outbox ++ email ∷ [] }

-- `x !== null && now > x`
abbrev pub is_past : ℕ → Option ℕ → Bool
is_past now none = false
is_past now (some at) = ltb at now

-- A column `x` that holds the token.
abbrev pub holds_token : String → Option String → Bool
holds_token token column = same column (some token)

unfoldable pub verify_email : ℕ → String → Action AuthStore (Unit {0})
verify_email now token = do
  found ← gets (λ db. find (λ u. holds_token token u.email_verification_token) db.users)
  user ← or_throw found (bad_request "Invalid verification token")
  throw_if (is_past now user.email_verification_expires)
      (bad_request "Verification token has expired")
  modify (save_user user.id verified)
  where
    verified : User → User
    verified u = record u {
      email_verified = true;
      email_verification_token = none;
      email_verification_expires = none;
    }

module _ (lib : Libraries) where
  unfoldable pub forgot_password : ℕ → String → String → Action AuthStore (Unit {0})
  forgot_password now token email db = elim (find (has_email (lib.to_lower_case email)) db.users) [
    | none ↦ pure tt db
    | some user ↦
        (modify (save_user user.id requested)
            >> modify (send (password_reset_email user.email token)))
          db
  ]
    where
      requested : User → User
      requested u = record u {
        password_reset_token = some token;
        password_reset_expires = some (now + reset_ttl_ms);
      }

  -- The assignment to `passwordHash` and the `beforeUpdate` hook, which hashes it if it changed.
  abbrev pub set_password : String → String → User → User
  set_password salt password u =
      let hash = if password == u.password_hash then u.password_hash else lib.hash salt password in
      record u { password_hash = hash }

  abbrev pub reset : String → String → User → User
  reset salt password u = record (set_password salt password u) {
    password_reset_token = none;
    password_reset_expires = none;
  }

  unfoldable pub reset_password : ℕ → String → String → String → Action AuthStore (Unit {0})
  reset_password now salt token password = do
    found ← gets (λ db. find (λ u. holds_token token u.password_reset_token) db.users)
    user ← or_throw found (bad_request "Invalid reset token")
    throw_if (is_past now user.password_reset_expires) (bad_request "Reset token has expired")
    modify (save_user user.id (reset salt password))
    modify (destroy_sessions user.id)

  unfoldable pub change_password : String → String → String → String → Action AuthStore (Unit {0})
  change_password salt user_id current_password new_password = do
    found ← gets (find_user user_id)
    user ← or_throw found (not_found "User not found")
    throw_if (not (lib.compare current_password user.password_hash))
        (bad_request "Current password is incorrect")
    modify (save_user user.id (set_password salt new_password))
    modify (destroy_sessions user_id)
