-- ===== src/Auth/Login.antt =====
-- api/src/services/auth-service.ts and tokens.ts: `login`, `logout` and `refresh`, and
-- api/src/middlewares/authenticate.ts, which reads what they leave. The clock and the random ids are
-- arguments; the expiry of a token is in the library's signature.
pub mod Refused
pub mod Sessions
use livechat.ApiError.{unauthorized, forbidden}
use livechat.Prelude.{
  ℕ, ◌+◌, ◌*◌, String, Bool, true, false, not, ◌&&◌, Option, none, some, List, [], ◌∷◌, ◌++◌, ◌==◌,
  ltb, any, find, update, filter, is_null, if◌then◌else◌,
}
use livechat.Prelude.Action.{Action, pure, throw, gets, or_throw, throw_if, modify, ◌>>=◌, ◌>>◌}
use livechat.Auth.{
  User, UserSafe, to_safe_json, UserSession, Blacklisted, AuthStore, RefreshPayload,
  AccessTokenPayload, Libraries, has_email, find_user, save_user, destroy_sessions, is_active,
  is_super_admin,
}
use livechat.Auth.Lockout.{is_locked, increment_failed_attempts, reset_failed_attempts}

abbrev pub day_ms : ℕ
day_ms = 24 * 60 * 60 * 1000

abbrev pub session_ttl_ms : ℕ
session_ttl_ms = 7 * day_ms

abbrev pub access_blacklist_ttl_s : ℕ
access_blacklist_ttl_s = 3600

pub record LoginInput : Type 0 where
  pub email : String
  pub password : String
  pub ip_address : Option String
  pub user_agent : Option String

pub record LoginResult : Type 0 where
  pub user : UserSafe
  pub access_token : String
  pub refresh_token : String

-- The random values that one call draws.
pub record Fresh : Type 0 where
  pub row_id : String
  pub session_id : String
  pub access_jti : String
  pub refresh_jti : String
  pub salt : String

module _ (lib : Libraries) where
  unfoldable pub generate_access_token : User → String → String
  generate_access_token u jti =
      lib.sign_access
        (record { sub = u.id; email = u.email; role = u.role; tenant_id = u.tenant_id; jti = jti })

  unfoldable pub generate_refresh_token : User → String → String
  generate_refresh_token u jti =
      lib.sign_refresh (record { sub = u.id; jti = jti; token_type = "refresh" })

  abbrev pub insert_session : UserSession → AuthStore → AuthStore
  insert_session s db = record db { user_sessions = db.user_sessions ++ s ∷ [] }

  abbrev pub logged_in : ℕ → User → User
  logged_in now u = record u { last_login_at = some now }

  -- `login` from the point where the password matched.
  pub open_session : ℕ → Fresh → LoginInput → User → Action AuthStore LoginResult
  unfolding generate_access_token generate_refresh_token reset_failed_attempts
  open_session now fresh input user = do
    modify (save_user user.id reset_failed_attempts)
    modify (save_user user.id (logged_in now))
    modify (insert_session session)
    pure (record {
      user = to_safe_json (logged_in now (reset_failed_attempts user));
      access_token = generate_access_token user fresh.access_jti;
      refresh_token = generate_refresh_token user fresh.refresh_jti;
    })
    where
      session : UserSession
      session = record {
        id = fresh.row_id;
        user_id = user.id;
        session_id = fresh.session_id;
        refresh_token_hash = lib.hash fresh.salt (generate_refresh_token user fresh.refresh_jti);
        jti = fresh.refresh_jti;
        ip_address = input.ip_address;
        user_agent = input.user_agent;
        expires_at = now + session_ttl_ms;
        last_activity_at = now;
      }

  unfoldable pub login : ℕ → Fresh → LoginInput → Action AuthStore LoginResult
  login now fresh input = do
    found ← gets (λ db. find (has_email (lib.to_lower_case input.email)) db.users)
    user ← or_throw found (unauthorized "Invalid email or password")
    throw_if (is_locked now user) (forbidden "Account is temporarily locked. Try again later.")
    throw_if (not (is_active user.status)) (forbidden "Account is not active")
    if lib.compare input.password user.password_hash
        then open_session now fresh input user
        else (modify (save_user user.id (increment_failed_attempts now))
            >> throw (unauthorized "Invalid email or password"))

  abbrev pub revoked : ℕ → String → Blacklisted
  revoked now jti = record { jti = jti; expires_at = now + access_blacklist_ttl_s * 1000 }

  unfoldable pub logout : ℕ → String → String → Action AuthStore (Unit {0})
  logout now user_id token_jti = do
    modify (λ db. record db { jwt_blacklist = db.jwt_blacklist ++ revoked now token_jti ∷ [] })
    modify (λ db. record db { redis = db.redis ++ revoked now token_jti ∷ [] })
    modify (destroy_sessions user_id)

  abbrev pub is_session : RefreshPayload → UserSession → Bool
  is_session p s = s.user_id == p.sub && s.jti == p.jti

  abbrev pub destroy_session : String → AuthStore → AuthStore
  destroy_session id db = record db {
    user_sessions = filter (λ s. not (s.id == id)) db.user_sessions;
  }

  abbrev pub active_user : Option User → Option User
  active_user none = none
  active_user (some u) = if is_active u.status then some u else none

  pub rotate_session : ℕ → Fresh → User → UserSession → AuthStore → AuthStore
  unfolding generate_refresh_token
  rotate_session now fresh user session db = record db {
    user_sessions = update (λ s. s.id == session.id) rotated db.user_sessions;
  }
    where
      rotated : UserSession → UserSession
      rotated s = record s {
        refresh_token_hash = lib.hash fresh.salt (generate_refresh_token user fresh.refresh_jti);
        jti = fresh.refresh_jti;
        last_activity_at = now;
        expires_at = now + session_ttl_ms;
      }

  -- `refresh` from the point where the token's payload is known.
  unfoldable pub refresh_session :
      ℕ → Fresh → String → RefreshPayload → Action AuthStore (String × String)
  unfolding rotate_session generate_access_token generate_refresh_token
  refresh_session now fresh token decoded = do
    throw_if (not (decoded.token_type == "refresh")) (unauthorized "Invalid token type")
    found ← gets (λ db. find (is_session decoded) db.user_sessions)
    session ← or_throw found (unauthorized "Session not found")
    if ltb session.expires_at now
        then (modify (destroy_session session.id) >> throw (unauthorized "Session expired"))
        else pure tt
    if not (lib.compare token session.refresh_token_hash)
        then (modify (destroy_session session.id) >> throw (unauthorized "Invalid refresh token"))
        else pure tt
    owner ← gets (find_user decoded.sub)
    user ← or_throw (active_user owner) (unauthorized "User not found or inactive")
    modify (rotate_session now fresh user session)
    pure
        (generate_access_token user fresh.access_jti, generate_refresh_token user fresh.refresh_jti)

  unfoldable pub refresh : ℕ → Fresh → String → Action AuthStore (String × String)
  refresh now fresh token = do
    decoded ← or_throw (lib.verify_refresh now token) (unauthorized "Invalid refresh token")
    refresh_session now fresh token decoded

  -- `redis.get('bl:' + jti)` answers until the key expires.
  abbrev pub is_blacklisted : ℕ → String → AuthStore → Bool
  is_blacklisted now jti db = any (λ b. b.jti == jti && ltb now b.expires_at) db.redis

  abbrev pub expired_tenant : ℕ → Option String → AuthStore → Bool
  expired_tenant now none db = false
  expired_tenant now (some tenant_id) db = elim (find (λ t. t.id == tenant_id) db.tenants) [
    | none ↦ false
    | some tenant ↦ elim tenant.expires_at [ none ↦ false | some at ↦ ltb at now ]
  ]

  unfoldable pub assert_tenant_active : ℕ → User → Action AuthStore (Unit {0})
  assert_tenant_active now user = do
    expired ← gets (expired_tenant now user.tenant_id)
    throw_if (expired && not (is_super_admin user.role))
        (forbidden "Your organization's access has expired. Please contact your administrator.")

  unfoldable pub authenticate_access_token : ℕ → String → Action AuthStore (User × String)
  unfolding assert_tenant_active
  authenticate_access_token now token = do
    decoded ← or_throw (lib.verify_access now token) (unauthorized "Invalid or expired token")
    blacklisted ← gets (is_blacklisted now decoded.jti)
    throw_if blacklisted (unauthorized "Token has been revoked")
    found ← gets (find_user decoded.sub)
    user ← or_throw found (unauthorized "User not found")
    throw_if (not (is_active user.status)) (forbidden "Account is not active")
    assert_tenant_active now user
    pure (user, decoded.jti)
