-- ===== src/Auth/Tests.antt =====
-- The auth service at concrete inputs, and its theorems applied to them.
use livechat.ApiError.{ok, err, unauthorized, forbidden, bad_request}
use livechat.Prelude.{
  String, ◌≡◌, refl, true, false, none, some, [], ◌∷◌, ◌++◌, arith, eq_iff, ◌==◌, find, ◌&&◌,
}
use livechat.Auth.{
  admin, staff, User, UserStatus, UserSession, Invitation, InvitationStatus, AuthStore,
  RefreshPayload, AccessTokenPayload, Libraries, find_user,
}
use livechat.Auth.Lockout.{is_locked}
use livechat.Auth.Login.{Fresh, LoginInput, login, logout, refresh, authenticate_access_token}
use livechat.Auth.Login.Refused.{tries, login-locked_out}
use livechat.Auth.Login.Sessions.{logout-ends, refresh-once}
use livechat.Auth.Password.{change_password}
use livechat.Auth.Password.Changed.{change_password-ends}
use livechat.Auth.Register.{pending_with, RegisterInput, register}
use livechat.Auth.Register.Once.{register-once}

abbrev pub payload : String → RefreshPayload
payload jti = record { sub = "u1"; jti = jti; token_type = "refresh" }

abbrev pub access : AccessTokenPayload
access = record { sub = "u1"; email = "ann@acme.test"; role = staff; tenant_id = none; jti = "a1" }

-- Libraries in which a token is its id and a hash is its text.
abbrev pub plain : Libraries
plain = record {
  to_lower_case = λ s. s;
  trim = λ s. s;
  hash = λ salt password. password;
  compare = λ password hash. password == hash;
  sign_access = λ p. p.jti;
  sign_refresh = λ p. p.jti;
  verify_access = λ now token. some access;
  verify_refresh = λ now token. some (payload token);
  compare-hash = λ salt password. (eq_iff password password).1 refl;
}

abbrev ann : User
ann = record {
  id = "u1";
  email = "ann@acme.test";
  password_hash = "secret";
  first_name = "Ann";
  last_name = "Lee";
  role = staff;
  tenant_id = none;
  email_verified = true;
  email_verification_token = none;
  email_verification_expires = none;
  password_reset_token = none;
  password_reset_expires = none;
  failed_login_attempts = 0;
  locked_until = none;
  status = UserStatus.active;
  last_login_at = none;
}

abbrev session : UserSession
session = record {
  id = "s1";
  user_id = "u1";
  session_id = "x1";
  refresh_token_hash = "r1";
  jti = "r1";
  ip_address = none;
  user_agent = none;
  expires_at = 100;
  last_activity_at = 0;
}

abbrev invitation : Invitation
invitation = record {
  id = "i1";
  tenant_id = some "acme";
  email = "bob@acme.test";
  name = none;
  role = admin;
  token = "t1";
  status = InvitationStatus.pending;
  invited_by = "u1";
  expires_at = 100;
  accepted_at = none;
}

abbrev db : AuthStore
db = record {
  tenants = [];
  users = ann ∷ [];
  user_sessions = session ∷ [];
  invitations = invitation ∷ [];
  jwt_blacklist = [];
  redis = [];
  outbox = [];
}

abbrev fresh : Fresh
fresh = record {
  row_id = "s2";
  session_id = "x2";
  access_jti = "a2";
  refresh_jti = "r2";
  salt = "";
}

abbrev guess : LoginInput
guess = record { email = "ann@acme.test"; password = "wrong"; ip_address = none; user_agent = none }

abbrev stranger : LoginInput
stranger = record guess { email = "eve@acme.test" }

abbrev joining : RegisterInput
joining = record {
  email = "bob@acme.test";
  password = "pass";
  first_name = "Bob";
  last_name = "Ray";
  token = "t1";
}

found_ann : find_user "u1" db ≡ some ann
unfolding find
found_ann = refl

by_email : find (λ u. u.email == "ann@acme.test") db.users ≡ some ann
unfolding find
by_email = refl

no_eve : find (λ u. u.email == "eve@acme.test") db.users ≡ none
unfolding find
no_eve = refl

free_account : is_locked 5 ann ≡ false
unfolding is_locked
free_account = refl

known_session : find (λ s. s.user_id == "u1" && s.jti == "r1") db.user_sessions ≡ some session
unfolding find
known_session = refl

found_invitation : find (pending_with "t1") db.invitations ≡ some invitation
unfolding find
found_invitation = refl

login-locked_out_example :
    login plain 6 fresh
      (record guess { password = "secret" })
      (tries plain fresh guess (1 ∷ 2 ∷ 3 ∷ 4 ∷ 5 ∷ []) db)
    ≡ (
      err (forbidden "Account is temporarily locked. Try again later."),
      tries plain fresh guess (1 ∷ 2 ∷ 3 ∷ 4 ∷ 5 ∷ []) db,
    )
login-locked_out_example =
    login-locked_out plain fresh guess (1 ∷ 2 ∷ 3 ∷ 4 ∷ []) 5 6 db refl
      (ann, by_email, refl, refl, refl, refl) (omega arith) "secret"

logout-ends_example :
    ((authenticate_access_token plain 10 "a1" (logout plain 5 "u1" "a1" db).1).0
      ≡ err (unauthorized "Token has been revoked"))
    × ((refresh plain 5000000 fresh "r1" (logout plain 5 "u1" "a1" db).1).0
        ≡ err (unauthorized "Session not found"))
logout-ends_example =
    logout-ends plain 5 10 5000000 fresh "a1" "r1" access (payload "r1") db refl (omega arith) refl
      refl

refresh-once_example :
    ((tokens : String × String) × ((refresh plain 10 fresh "r1" db).0 ≡ ok tokens))
    × ((refresh plain 20 fresh "r1" (refresh plain 10 fresh "r1" db).1).0
        ≡ err (unauthorized "Session not found"))
refresh-once_example =
    refresh-once plain 10 20 fresh fresh "r1" (payload "r1") db session ann refl refl refl
      known_session (omega arith) refl found_ann refl ((λ e. refl), tt)
      (λ e. ground (arith, eq_iff "r2" "r1"))

change_password-ends_example :
    ((changed : User) × (find_user "u1" (change_password plain "" "u1" "secret" "better" db).1
        ≡ some changed)
      × (("better" == changed.password_hash) ≡ true))
    × ((refresh plain 10 fresh "r1" (change_password plain "" "u1" "secret" "better" db).1).0
        ≡ err (unauthorized "Session not found"))
change_password-ends_example =
    change_password-ends plain "" "secret" "better" "r1" 10 fresh (payload "r1") db ann found_ann
      refl (λ e. ground (arith, eq_iff "better" "secret")) refl refl

register-once_example :
    ((user : User) × ((register plain 10 "u2" "" "v" joining db).1.users ≡ db.users ++ user ∷ [])
      × (user.role ≡ admin)
      × (user.tenant_id ≡ some "acme"))
    × (register plain 20 "u3" "" "w" joining (register plain 10 "u2" "" "v" joining db).1 ≡ (
      err (bad_request "Invalid or expired invitation"),
      (register plain 10 "u2" "" "v" joining db).1,
    ))
register-once_example =
    register-once plain 10 20 "u2" "u3" "" "v" "w" joining joining db invitation found_invitation
      (omega arith) refl refl ((λ e. refl), tt) refl
