-- ===== src/Auth/Lockout.antt =====
-- api/src/models/user.ts: the lockout of an account. Instants are milliseconds.
use livechat.Prelude.{ℕ, suc, ◌+◌, ◌*◌, Bool, false, none, some, ltb, leb, if◌then◌else◌}
use livechat.Auth.{User}

abbrev pub lockout_minutes : ℕ
lockout_minutes = 30

abbrev pub max_failed_attempts : ℕ
max_failed_attempts = 5

unfoldable pub is_locked : ℕ → User → Bool
is_locked now u = elim u.locked_until [ none ↦ false | some until ↦ ltb now until ]

unfoldable pub increment_failed_attempts : ℕ → User → User
increment_failed_attempts now u =
    let attempts = suc u.failed_login_attempts in
    let locked_until =
      if leb max_failed_attempts attempts
      then some (now + lockout_minutes * 60 * 1000)
      else u.locked_until in
    record u { failed_login_attempts = attempts; locked_until = locked_until }

unfoldable pub reset_failed_attempts : User → User
reset_failed_attempts u = record u { failed_login_attempts = 0; locked_until = none }
