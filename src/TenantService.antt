-- ===== src/TenantService.antt =====
-- api/src/services/tenant-service.ts, with the cache of api/src/middlewares/cors.ts that it clears.
-- The id and the embed secret of a new tenant, a rotated secret and the clock are arguments. The
-- unique index on `slug` holds over deleted rows too; what it refuses is no ApiError, which the error
-- handler answers with 500.
pub mod Kept
mod Tests
use livechat.ApiError.{ApiError, not_found, conflict}
use livechat.Prelude.{
  ℕ, String, Bool, true, false, not, ◌&&◌, Option, none, some, List, [], ◌∷◌, ◌++◌, ◌==◌, any, find,
  filter, update, is_null, if◌then◌else◌,
}
use livechat.Prelude.Action.{Action, pure, throw, throw_if, gets, or_throw, modify, ◌>>=◌, ◌>>◌}
use livechat.Models.{Tenant, TenantStatus, active, is_present, has_slug, tenant_by_id}
use livechat.Origins.{Cache, clear_origin_cache}

pub record TenantStore : Type 0 where
  pub tenants : List Tenant
  pub origin_cache : Cache

pub record CreateTenantInput : Type 0 where
  pub name : String
  pub slug : String
  pub domain : Option String
  pub expires_at : Option ℕ
  pub settings : Option String

pub record UpdateTenantInput : Type 0 where
  pub name : Option String
  pub slug : Option String
  pub domain : Option String
  pub status : Option TenantStatus
  pub expires_at : Option ℕ
  pub settings : Option String

abbrev pub internal_error : ApiError
internal_error = record { status = 500; message = "Internal server error" }

-- The unique index: another row has the slug.
abbrev pub slug_taken : String → String → List Tenant → Bool
slug_taken id slug tenants = any (λ t. t.slug == slug && not (t.id == id)) tenants

abbrev pub insert_tenant : Tenant → TenantStore → TenantStore
insert_tenant tenant db = record db { tenants = db.tenants ++ tenant ∷ [] }

abbrev pub save_tenant : Tenant → TenantStore → TenantStore
save_tenant tenant db = record db {
  tenants = update (tenant_by_id tenant.id) (λ _. tenant) db.tenants;
}

unfoldable pub create : String → String → CreateTenantInput → Action TenantStore Tenant
create id embed_secret input = do
  existing ← gets (λ db. find (has_slug input.slug) db.tenants)
  throw_if (not (is_null existing)) (conflict "Slug is already taken")
  taken ← gets (λ db. slug_taken id input.slug db.tenants)
  throw_if taken internal_error
  modify (insert_tenant tenant)
  pure tenant
  where
    tenant : Tenant
    tenant = record {
      id = id;
      name = input.name;
      slug = input.slug;
      domain = input.domain;
      status = TenantStatus.active;
      expires_at = input.expires_at;
      settings = input.settings;
      embed_secret = embed_secret;
      allowed_origins = none;
      deleted_at = none;
    }

-- All tenants; `inc` grows with the insertion.
unfoldable pub list : TenantStore → List Tenant
list db = filter is_present db.tenants

unfoldable pub get_by_id : String → Action TenantStore Tenant
get_by_id id = do
  found ← gets (λ db. find (tenant_by_id id) db.tenants)
  or_throw found (not_found "Tenant not found")

abbrev pub changed {ℓ} : {A : Type ℓ} → Option A → A → A
changed none old = old
changed (some new) old = new

abbrev pub changed_option {ℓ} : {A : Type ℓ} → Option A → Option A → Option A
changed_option none old = old
changed_option (some new) old = some new

unfoldable pub patched : UpdateTenantInput → Tenant → Tenant
patched input t = record t {
  name = changed input.name t.name;
  slug = changed input.slug t.slug;
  domain = changed_option input.domain t.domain;
  status = changed input.status t.status;
  expires_at = changed_option input.expires_at t.expires_at;
  settings = changed_option input.settings t.settings;
}

-- `tenant.save()`, which the unique index may refuse.
unfoldable pub save : Tenant → Action TenantStore Tenant
save tenant = do
  taken ← gets (λ db. slug_taken tenant.id tenant.slug db.tenants)
  throw_if taken internal_error
  modify (save_tenant tenant)
  pure tenant

unfoldable pub update_tenant : String → UpdateTenantInput → Action TenantStore Tenant
unfolding get_by_id save patched
update_tenant id input = do tenant ← get_by_id id; save (patched input tenant)

unfoldable pub remove : ℕ → String → Action TenantStore (Unit {0})
unfolding get_by_id save
remove now id = do
  tenant ← get_by_id id
  modify (save_tenant (record tenant { deleted_at = some now }))

unfoldable pub rotate_embed_secret : String → String → Action TenantStore String
unfolding get_by_id save
rotate_embed_secret secret id = do
  tenant ← get_by_id id
  save (record tenant { embed_secret = secret })
  pure secret

unfoldable pub set_allowed_origins : String → Option (List String) → Action TenantStore Tenant
unfolding get_by_id save
set_allowed_origins id origins = do
  tenant ← get_by_id id
  save (record tenant { allowed_origins = origins })
  modify (λ db. record db { origin_cache = clear_origin_cache db.origin_cache })
  pure (record tenant { allowed_origins = origins })
