-- ===== src/Admin/Escalated.antt =====
-- api/src/routes/users.ts, invitations.ts and tenants.ts: what an administrator of one tenant can do.
use livechat.ApiError.{ok}
use livechat.Prelude.{ℕ, String, ◌≡◌, refl, true, none, some}
use mathlib.Core.Option
use livechat.Prelude.Action.{Action}
use livechat.Auth.{super_admin, User, Invitation, Libraries}
use livechat.Auth.Register.{CreateInvitationInput, known_tenant, create}
use livechat.Authorize.{require_role}
use livechat.Admin.{AdminStore, admin_route}
use livechat.Admin.Users.{UpdateUserInput}
use livechat.Admin.Invitations.{post_invitation_route}
use livechat.Admin.Confined.{admin_of}

abbrev pub promotion : UpdateUserInput
promotion = record { first_name = none; last_name = none; role = some super_admin; status = none }

abbrev pub promoted : User → User
promoted u = record u { role = super_admin }

-- An administrator of one tenant invites anybody to any known tenant, or to none, with any role:
-- the invitations' routes do not compare tenants.
pub post_invitation_route-unscoped :
    (lib : Libraries) (user_id tenant_id : String) (now : ℕ) (id token : String)
    (body : CreateInvitationInput) (db : AdminStore)
    → known_tenant body.tenant_id db.accounts ≡ true
    → (invitation : Invitation) × ((post_invitation_route
          (admin_of user_id tenant_id)
          lib
          now
          id
          token
          body
          db).0
        ≡ ok invitation)
      × (invitation.tenant_id ≡ body.tenant_id)
      × (invitation.role ≡ body.role)
unfolding post_invitation_route admin_route require_role create
post_invitation_route-unscoped lib user_id tenant_id now id token body db known =
    rw known (_, refl, refl, refl)
