-- ===== src/Admin/Tests.antt =====
-- Administrators at concrete inputs, and the theorems on them.
use livechat.ApiError.{ok, err, forbidden}
use livechat.Prelude.{◌≡◌, true, false, none, some, [], ◌∷◌, same, All}
use livechat.Models.{Tenant, TenantStatus}
use livechat.Auth.{User, UserStatus, super_admin, admin, to_safe_json, find_user}
use livechat.Auth.Register.{CreateInvitationInput}
use livechat.Admin.{AdminStore}
use livechat.Admin.Users.{get_users_route, get_user_route, patch_user_route}
use livechat.Admin.Confined.{admin_of, users_routes-confined}
use livechat.Admin.Escalated.{promotion}

abbrev eve : User
eve = record {
  id = "u1";
  email = "eve@acme.example";
  password_hash = "hash";
  first_name = "Eve";
  last_name = "Doe";
  role = admin;
  tenant_id = some "t1";
  email_verified = true;
  email_verification_token = none;
  email_verification_expires = none;
  password_reset_token = none;
  password_reset_expires = none;
  failed_login_attempts = 0;
  locked_until = none;
  status = UserStatus.active;
  last_login_at = none;
}

abbrev bob : User
bob = record eve { id = "u2"; email = "bob@beta.example"; tenant_id = some "t2" }

abbrev beta : Tenant
beta = record {
  id = "t2";
  name = "Beta";
  slug = "beta";
  domain = none;
  status = TenantStatus.active;
  expires_at = none;
  settings = none;
  embed_secret = "embed";
  allowed_origins = none;
  deleted_at = none;
}

abbrev db : AdminStore
db = record {
  accounts = record {
    tenants = record { id = "t2"; expires_at = none } ∷ [];
    users = eve ∷ bob ∷ [];
    user_sessions = [];
    invitations = [];
    jwt_blacklist = [];
    redis = [];
    outbox = [];
  };
  tenants = record { tenants = beta ∷ []; origin_cache = [] };
  audit_logs = [];
}

users_routes-confined_example :
    ((get_users_route (admin_of "u1" "t1") (some "t1") db).0 ≡ ok (to_safe_json eve ∷ [])
      → All (λ u. u.tenant_id ≡ some "t1") (to_safe_json eve ∷ []))
    × ((user : User)
        → find_user "u2" db.accounts ≡ some user
        → same user.tenant_id (some "t1") ≡ false
        → (patch_user_route (admin_of "u1" "t1") "u2" promotion db
            ≡ (err (forbidden "Access denied to this tenant"), db))
          × (get_user_route (admin_of "u1" "t1") "u2" db
              ≡ (err (forbidden "Access denied to this tenant"), db)))
users_routes-confined_example =
    users_routes-confined "u1" "t1" db (some "t1") (to_safe_json eve ∷ []) "u2" promotion

abbrev invite : CreateInvitationInput
invite = record {
  email = "mallory@acme.example";
  name = none;
  role = super_admin;
  tenant_id = none;
  expires_in_days = 7;
}
