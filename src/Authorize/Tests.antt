-- ===== src/Authorize/Tests.antt =====
-- Authorization at concrete inputs.
use livechat.ApiError.{ok, err, forbidden}
use livechat.Prelude.{◌≡◌, refl, Option, none, some}
use livechat.Auth.{staff}
use livechat.Authorize.{Caller, resolve_tenant_filter}

abbrev agent : Option Caller
agent = some (record { role = staff; tenant_id = some "acme" })

pinned : resolve_tenant_filter agent none ≡ ok (some "acme")
unfolding resolve_tenant_filter
pinned = refl

refused : resolve_tenant_filter agent (some "beta") ≡ err (forbidden "Access denied to this tenant")
unfolding resolve_tenant_filter
refused = refl
