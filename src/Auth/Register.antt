-- ===== src/Auth/Register.antt =====
-- api/src/services/invitation-service.ts, and `register` of api/src/services/auth-service.ts.
pub mod Once
use livechat.ApiError.{bad_request, not_found, conflict}
use livechat.Prelude.{
  ℕ, ◌+◌, ◌*◌, String, Bool, true, false, not, ◌&&◌, Option, none, some, List, [], ◌∷◌, ◌++◌, ◌==◌,
  ltb, any, concat, find, update, filter, order_desc, same, if◌then◌else◌,
}
use livechat.Prelude.Action.{Action, pure, throw, gets, or_throw, throw_if, modify, ◌>>=◌, ◌>>◌}
use livechat.Auth.{
  Role, UserStatus, User, UserSafe, to_safe_json, Invitation, InvitationStatus, accepted, expired,
  revoked, invitation_email, verification_email, AuthStore, Libraries, has_email,
}
use livechat.Auth.Password.{send}
use livechat.Auth.Login.{day_ms}

pub record CreateInvitationInput : Type 0 where
  pub tenant_id : Option String
  pub email : String
  pub name : Option String
  pub role : Role
  pub expires_in_days : ℕ

pub record RegisterInput : Type 0 where
  pub email : String
  pub password : String
  pub first_name : String
  pub last_name : String
  pub token : String

abbrev pub is_pending : InvitationStatus → Bool
is_pending InvitationStatus.pending = true
is_pending _ = false

-- A tenant id that names a tenant, or none.
abbrev pub known_tenant : Option String → AuthStore → Bool
known_tenant none db = true
known_tenant (some id) db = any (λ t. t.id == id) db.tenants

abbrev pub save_invitation : String → (Invitation → Invitation) → AuthStore → AuthStore
save_invitation id f db = record db { invitations = update (λ i. i.id == id) f db.invitations }

unfoldable pub is_expired : ℕ → Invitation → Bool
is_expired now i = ltb i.expires_at now

abbrev pub status_text : InvitationStatus → String
status_text InvitationStatus.pending = "pending"
status_text accepted = "accepted"
status_text expired = "expired"
status_text revoked = "revoked"

-- `Invitation.update({ status })`
abbrev pub with_status : InvitationStatus → Invitation → Invitation
with_status status i = record i { status = status }

unfoldable pub revoke : String → Action AuthStore (Unit {0})
revoke id = do
  found ← gets (λ db. find (λ i. i.id == id) db.invitations)
  invitation ← or_throw found (not_found "Invitation not found")
  throw_if (not (is_pending invitation.status)) (
      bad_request
        (concat "Cannot revoke a " (concat (status_text invitation.status) " invitation")))
  modify (save_invitation invitation.id (with_status InvitationStatus.revoked))

abbrev pub pending_with : String → Invitation → Bool
pending_with token i = i.token == token && is_pending i.status

abbrev pub verify_ttl_ms : ℕ
verify_ttl_ms = day_ms

module _ (lib : Libraries) where
  -- The setter of the column `email`.
  abbrev pub stored_email : String → String
  stored_email email = lib.trim (lib.to_lower_case email)

  unfoldable pub create :
      ℕ → String → String → CreateInvitationInput → String → Action AuthStore Invitation
  create now id token input invited_by = do
    known ← gets (known_tenant input.tenant_id)
    throw_if (not known) (bad_request "Tenant not found")
    modify (λ db. record db { invitations = db.invitations ++ invitation ∷ [] })
    modify (send (invitation_email input.email input.name token))
    pure invitation
    where
      invitation : Invitation
      invitation = record {
        id = id;
        tenant_id = input.tenant_id;
        email = stored_email input.email;
        name = input.name;
        role = input.role;
        token = token;
        status = InvitationStatus.pending;
        invited_by = invited_by;
        expires_at = now + input.expires_in_days * day_ms;
        accepted_at = none;
      }

  pub invited_user : ℕ → String → String → String → RegisterInput → Invitation → User
  invited_user now id salt verification_token input invitation = record {
    id = id;
    email = stored_email input.email;
    password_hash = lib.hash salt input.password;
    first_name = input.first_name;
    last_name = input.last_name;
    role = invitation.role;
    tenant_id = invitation.tenant_id;
    email_verified = false;
    email_verification_token = some verification_token;
    email_verification_expires = some (now + verify_ttl_ms);
    password_reset_token = none;
    password_reset_expires = none;
    failed_login_attempts = 0;
    locked_until = none;
    status = UserStatus.active;
    last_login_at = none;
  }

  abbrev pub accept : ℕ → Invitation → Invitation
  accept now i = record i { status = accepted; accepted_at = some now }

  unfoldable pub register : ℕ → String → String → String → RegisterInput → Action AuthStore UserSafe
  unfolding invited_user
  register now id salt verification_token input = do
    found ← gets (λ db. find (pending_with input.token) db.invitations)
    invitation ← or_throw found (bad_request "Invalid or expired invitation")
    if is_expired now invitation
        then (modify (save_invitation invitation.id (with_status InvitationStatus.expired))
            >> throw (bad_request "Invitation has expired"))
        else pure tt
    throw_if (not (lib.to_lower_case invitation.email == lib.to_lower_case input.email))
        (bad_request "Email does not match invitation")
    existing ← gets (λ db. any (has_email (lib.to_lower_case input.email)) db.users)
    throw_if existing (conflict "Email already registered")
    modify (λ db. record db {
      users = db.users ++ invited_user now id salt verification_token input invitation ∷ [];
    })
    modify (save_invitation invitation.id (accept now))
    modify (send (verification_email (stored_email input.email) verification_token))
    pure (to_safe_json (invited_user now id salt verification_token input invitation))
