-- ===== src/Authorize.antt =====
-- api/src/middlewares/authorize.ts: the roles and the tenant that a request is confined to. A request
-- without `req.user` is `none`; a query parameter that is no text is `none`.
pub mod Confined
mod Tests
use livechat.ApiError.{Result, ok, err, unauthorized, forbidden}
use livechat.Prelude.{
  String, Bool, true, false, not, ◌||◌, Option, none, some, List, [], ◌∷◌, ◌==◌, any, same,
  if◌then◌else◌,
}
use livechat.Auth.{Role, super_admin, admin, staff, client}

-- The fields of `req.user` that are read.
pub record Caller : Type 0 where
  pub role : Role
  pub tenant_id : Option String

abbrev pub role_eq : Role → Role → Bool
role_eq super_admin super_admin = true
role_eq admin admin = true
role_eq staff staff = true
role_eq client client = true
role_eq _ _ = false

unfoldable pub require_role : List Role → Option Caller → Result (Unit {0})
require_role roles none = err (unauthorized "Authentication required")
require_role roles (some user) =
    if any (role_eq user.role) roles then ok tt else err (forbidden "Insufficient permissions")

unfoldable pub require_staff_or_admin : Option Caller → Result (Unit {0})
unfolding require_role
require_staff_or_admin = require_role (super_admin ∷ admin ∷ staff ∷ [])

unfoldable pub caller_tenant_scope : Option Caller → Option String
caller_tenant_scope none = none
caller_tenant_scope (some user) = user.tenant_id

-- The check once the scope is known.
abbrev pub within_scope : Option String → Option String → Result (Unit {0})
within_scope none tenant_id = ok tt
within_scope (some scope) tenant_id =
    if same tenant_id (some scope) then ok tt else err (forbidden "Access denied to this tenant")

unfoldable pub assert_tenant_access : Option Caller → Option String → Result (Unit {0})
unfolding caller_tenant_scope
assert_tenant_access caller tenant_id = within_scope (caller_tenant_scope caller) tenant_id

abbrev pub filter_within : Option String → Option String → Result (Option String)
filter_within none asked = ok asked
filter_within (some scope) none = ok (some scope)
filter_within (some scope) (some asked) =
    if asked == scope then ok (some scope) else err (forbidden "Access denied to this tenant")

unfoldable pub resolve_tenant_filter : Option Caller → Option String → Result (Option String)
unfolding caller_tenant_scope
resolve_tenant_filter caller requested = filter_within (caller_tenant_scope caller) requested
