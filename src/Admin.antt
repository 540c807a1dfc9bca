-- ===== src/Admin.antt =====
-- api/src/routes/admin-router.ts and api/src/utils/audit.ts: the routes of administrators. A request
-- is what `authenticate` leaves of it: the user's id, role and tenant. A handler runs after the role
-- checks of its router and its route; the entries of the audit trail are a list.
pub mod Users
pub mod Tenants
pub mod Invitations
pub mod Confined
pub mod Escalated
mod Tests
use livechat.ApiError.{Result}
use livechat.Prelude.{String, Bool, Option, none, some, List, [], ◌∷◌, ◌++◌, first_of}
use livechat.Prelude.Action.{Action, of_result, modify, ◌>>=◌, ◌>>◌}
use livechat.Auth.{Role, super_admin, admin, AuthStore}
use livechat.Authorize.{Caller, require_role}
use livechat.TenantService.{TenantStore}

pub record AdminRequest : Type 0 where
  pub user_id : String
  pub role : Role
  pub tenant_id : Option String

-- `req.user`, as the authorization helpers read it.
abbrev pub caller_of : AdminRequest → Option Caller
caller_of req = some (record { role = req.role; tenant_id = req.tenant_id })

-- An entry, without the address and the agent of the request and its metadata.
pub record AdminEntry : Type 0 where
  pub user_id : Option String
  pub tenant_id : Option String
  pub action : String
  pub resource_type : String
  pub resource_id : String

pub record AdminStore : Type 0 where
  pub accounts : AuthStore
  pub tenants : TenantStore
  pub audit_logs : List AdminEntry

abbrev pub on_accounts : {A : Type 0} → Action AuthStore A → Action AdminStore A
on_accounts m db = let (r, accounts) = m db.accounts in (r, record db { accounts = accounts })

abbrev pub on_tenants : {A : Type 0} → Action TenantStore A → Action AdminStore A
on_tenants m db = let (r, tenants) = m db.tenants in (r, record db { tenants = tenants })

unfoldable pub record_admin_audit :
    AdminRequest → Option String → String → String → String → Action AdminStore (Unit {0})
record_admin_audit req tenant_id action resource_type resource_id = modify (λ db. record db {
  audit_logs =
      db.audit_logs
      ++ record {
        user_id = some req.user_id;
        tenant_id = first_of tenant_id req.tenant_id;
        action = action;
        resource_type = resource_type;
        resource_id = resource_id;
      }
        ∷ [];
})

-- `buildAdminRouter`: the role check in front of every handler of the router.
unfoldable pub admin_route : {A : Type 0} → AdminRequest → Action AdminStore A → Action AdminStore A
admin_route req handler =
    of_result (require_role (super_admin ∷ admin ∷ []) (caller_of req)) >> handler

-- `requireRole('super_admin')` of one route.
unfoldable pub super_admin_only :
    {A : Type 0} → AdminRequest → Action AdminStore A → Action AdminStore A
super_admin_only req handler =
    of_result (require_role (super_admin ∷ []) (caller_of req)) >> handler
