-- ===== src/Origins.antt =====
-- api/src/middlewares/cors.ts and origin-allowed.ts: which sites may embed the widget. The process's
-- `Map` of decisions is the list of its entries in the order of insertion; the origins of a tenant
-- are the JSON array of its column. The headers of the policy that are fixed are left out.
pub mod Cached
pub mod Strict
mod Tests
use livechat.ApiError.{Result, ok, err, forbidden}
use livechat.Prelude.{
  ℕ, ◌+◌, String, Bool, true, false, not, ◌&&◌, Option, none, some, List, [], ◌∷◌, ◌++◌, ◌==◌, ltb,
  leb, length, any, includes, find, update, starts_with, is_nil, first_of, if◌then◌else◌,
}
use livechat.Models.{Tenant, is_present, is_active_tenant, has_slug}

abbrev pub widget_facing_prefixes : List String
widget_facing_prefixes = "/api/v1/visitor" ∷ "/api/v1/widget" ∷ "/v1/visitor" ∷ "/v1/widget" ∷ []

abbrev pub origin_cache_ttl_ms : ℕ
origin_cache_ttl_ms = 60000

abbrev pub origin_cache_max_entries : ℕ
origin_cache_max_entries = 10000

pub record Entry : Type 0 where
  pub origin : String
  pub allowed : Bool
  pub expires_at : ℕ

abbrev pub Cache : Type 0
Cache = List Entry

abbrev pub entry_of : String → Entry → Bool
entry_of origin e = e.origin == origin

-- `originCache.delete(originCache.keys().next().value)`
abbrev pub drop_oldest : Cache → Cache
drop_oldest [] = []
drop_oldest (e ∷ es) = es

-- `Map.set`: an entry keeps its place, a new one comes last.
abbrev pub put : Entry → Cache → Cache
put e es =
    if any (entry_of e.origin) es then update (entry_of e.origin) (λ _. e) es else es ++ e ∷ []

unfoldable pub cache_origin_decision : String → Bool → ℕ → Cache → Cache
cache_origin_decision origin allowed now cache =
    let full = not (any (entry_of origin) cache) && leb origin_cache_max_entries (length cache) in
    put (record { origin = origin; allowed = allowed; expires_at = now + origin_cache_ttl_ms })
      (if full then drop_oldest cache else cache)

unfoldable pub is_widget_facing_path : String → Bool
is_widget_facing_path path = any (starts_with path) widget_facing_prefixes

abbrev pub origins_of : Option (List String) → List String
origins_of none = []
origins_of (some origins) = origins

-- The `count` of the active tenants whose list contains the origin, compared with 0.
unfoldable pub allowed_anywhere : String → List Tenant → Bool
allowed_anywhere origin tenants =
    any
      (λ t.
        is_present t && is_active_tenant t.status && includes origin (origins_of t.allowed_origins))
      tenants

abbrev pub unexpired : ℕ → Option Entry → Option Entry
unexpired now none = none
unexpired now (some e) = if ltb now e.expires_at then some e else none

known_answer : ℕ → String → List Tenant → Cache → Option Entry → Bool × Cache
known_answer now origin tenants cache (some cached) = (cached.allowed, cache)
known_answer now origin tenants cache none =
    let allowed = allowed_anywhere origin tenants in
    (allowed, cache_origin_decision origin allowed now cache)

unfoldable pub is_known_widget_origin : ℕ → String → List Tenant → Cache → Bool × Cache
unfolding known_answer
is_known_widget_origin now origin tenants cache =
    known_answer now origin tenants cache (unexpired now (find (entry_of origin) cache))

abbrev pub clear_origin_cache : Cache → Cache
clear_origin_cache cache = []

-- What the policy reflects: an origin, or none.
known_policy : String → Bool × Cache → Option String × Cache
known_policy origin (allowed, cache) = (if allowed then some origin else none, cache)

-- A request without an Origin header, or to a path of the console.
abbrev pub console_policy : String → Cache → Option String × Cache
console_policy app_url cache = (some app_url, cache)

cors_of : String → ℕ → String → Option String → List Tenant → Cache → Option String × Cache
unfolding known_policy
cors_of app_url now path none tenants cache = console_policy app_url cache
cors_of app_url now path (some origin) tenants cache =
    if not (is_widget_facing_path path)
    then console_policy app_url cache
    else if origin == app_url
    then (some origin, cache)
    else known_policy origin (is_known_widget_origin now origin tenants cache)

unfoldable pub build_cors_delegate :
    String → ℕ → String → Option String → List Tenant → Cache → Option String × Cache
unfolding cors_of
build_cors_delegate = cors_of

-- The request as `originAllowed` reads it.
pub record TenantRequest : Type 0 where
  pub origin : Option String
  pub query_tenant_key : Option String
  pub body_tenant_key : Option String

abbrev pub resolve_tenant_key : TenantRequest → Option String
resolve_tenant_key req = first_of req.query_tenant_key req.body_tenant_key

abbrev pub in_list : String → List String → Result (Unit {0})
in_list origin allowed =
    if is_nil allowed
    then ok tt
    else if not (includes origin allowed)
    then err (forbidden "Origin not allowed for this tenant")
    else ok tt

abbrev pub for_tenant : String → Option Tenant → Result (Unit {0})
for_tenant origin none = ok tt
for_tenant origin (some tenant) = in_list origin (origins_of tenant.allowed_origins)

abbrev pub for_key : String → List Tenant → Option String → Result (Unit {0})
for_key origin tenants none = ok tt
for_key origin tenants (some key) = for_tenant origin (find (has_slug key) tenants)

abbrev pub for_origin : List Tenant → TenantRequest → Option String → Result (Unit {0})
for_origin tenants req none = ok tt
for_origin tenants req (some origin) = for_key origin tenants (resolve_tenant_key req)

unfoldable pub origin_allowed : TenantRequest → List Tenant → Result (Unit {0})
origin_allowed req tenants = for_origin tenants req req.origin
