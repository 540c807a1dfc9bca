-- ===== src/Auth.antt =====
-- Staff accounts: api/src/models/{user,user-session,invitation}.ts, the tables that the auth service
-- works on, and what it takes from the libraries (bcrypt, jsonwebtoken, the text functions). The
-- columns of a user that no operation here reads (phone, timezone, language, avatar, preferences) are
-- left out, and so are soft deletes: a destroyed row is gone for every query.
pub mod Lockout
pub mod Login
pub mod Password
pub mod Register
pub mod Tests
use livechat.Prelude.{
  ℕ, String, ◌≡◌, Bool, true, false, not, ◌&&◌, Option, none, some, List, ◌==◌, filter, find,
  update,
}

pub data Role : Type 0 where
  super_admin admin staff client : Role

pub data UserStatus : Type 0 where
  active suspended pending deactivated : UserStatus

pub data InvitationStatus : Type 0 where
  pending accepted expired revoked : InvitationStatus

pub record User : Type 0 where
  pub id : String
  pub email : String
  pub password_hash : String
  pub first_name : String
  pub last_name : String
  pub role : Role
  pub tenant_id : Option String
  pub email_verified : Bool
  pub email_verification_token : Option String
  pub email_verification_expires : Option ℕ
  pub password_reset_token : Option String
  pub password_reset_expires : Option ℕ
  pub failed_login_attempts : ℕ
  pub locked_until : Option ℕ
  pub status : UserStatus
  pub last_login_at : Option ℕ

-- What `toSafeJSON` leaves of a user.
pub record UserSafe : Type 0 where
  pub id : String
  pub email : String
  pub first_name : String
  pub last_name : String
  pub role : Role
  pub tenant_id : Option String
  pub email_verified : Bool
  pub status : UserStatus
  pub last_login_at : Option ℕ

abbrev pub to_safe_json : User → UserSafe
to_safe_json u = record {
  id = u.id;
  email = u.email;
  first_name = u.first_name;
  last_name = u.last_name;
  role = u.role;
  tenant_id = u.tenant_id;
  email_verified = u.email_verified;
  status = u.status;
  last_login_at = u.last_login_at;
}

pub record UserSession : Type 0 where
  pub id : String
  pub user_id : String
  pub session_id : String
  pub refresh_token_hash : String
  pub jti : String
  pub ip_address : Option String
  pub user_agent : Option String
  pub expires_at : ℕ
  pub last_activity_at : ℕ

pub record Invitation : Type 0 where
  pub id : String
  pub tenant_id : Option String
  pub email : String
  pub name : Option String
  pub role : Role
  pub token : String
  pub status : InvitationStatus
  pub invited_by : String
  pub expires_at : ℕ
  pub accepted_at : Option ℕ

-- What is sent through the email service.
pub data Email : Type 0 where
  verification_email password_reset_email : String → String → Email
  invitation_email : String → Option String → String → Email

-- A key of Redis with the instant at which it expires.
pub record Blacklisted : Type 0 where
  pub jti : String
  pub expires_at : ℕ

-- The columns of a tenant that authentication reads.
pub record TenantAccess : Type 0 where
  pub id : String
  pub expires_at : Option ℕ

pub record AuthStore : Type 0 where
  pub tenants : List TenantAccess
  pub users : List User
  pub user_sessions : List UserSession
  pub invitations : List Invitation
  pub jwt_blacklist : List Blacklisted
  pub redis : List Blacklisted
  pub outbox : List Email

pub record RefreshPayload : Type 0 where
  pub sub : String
  pub jti : String
  pub token_type : String

pub record AccessTokenPayload : Type 0 where
  pub sub : String
  pub email : String
  pub role : Role
  pub tenant_id : Option String
  pub jti : String

-- The libraries. `hash` takes its random salt; verification answers `none` where it throws.
pub record Libraries : Type 0 where
  pub to_lower_case : String → String
  pub trim : String → String
  pub hash : String → String → String
  pub compare : String → String → Bool
  pub sign_access : AccessTokenPayload → String
  pub sign_refresh : RefreshPayload → String
  pub verify_access : ℕ → String → Option AccessTokenPayload
  pub verify_refresh : ℕ → String → Option RefreshPayload
  -- bcrypt: a password matches its own hash.
  pub compare-hash : (salt password : String) → compare password (hash salt password) ≡ true

abbrev pub has_id : String → User → Bool
has_id id u = u.id == id

abbrev pub find_user : String → AuthStore → Option User
find_user id db = find (has_id id) db.users

abbrev pub has_email : String → User → Bool
has_email email u = u.email == email

-- `user.save()`: the changed columns of the row with the user's id.
abbrev pub save_user : String → (User → User) → AuthStore → AuthStore
save_user id f db = record db { users = update (has_id id) f users }
  where
    open db use {users}

-- `UserSession.destroy({ where: { userId } })`
abbrev pub destroy_sessions : String → AuthStore → AuthStore
destroy_sessions user_id db = record db {
  user_sessions = filter (λ s. not (s.user_id == user_id)) user_sessions;
}
  where
    open db use {user_sessions}

abbrev pub is_active : UserStatus → Bool
is_active UserStatus.active = true
is_active _ = false

abbrev pub is_super_admin : Role → Bool
is_super_admin super_admin = true
is_super_admin _ = false
