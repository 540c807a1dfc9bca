-- ===== src/TenantService/Tests.antt =====
-- A tenant's sites at concrete inputs, and the theorems on them.
use livechat.ApiError.{ok}
use livechat.Prelude.{ℕ, String, ◌≡◌, refl, false, Option, none, some, List, [], ◌∷◌, map, find}
use livechat.Models.{tenant_by_id, Tenant, TenantStatus}
use livechat.Origins.{allowed_anywhere}
use livechat.Origins.Cached.{look_up}
use livechat.TenantService.{TenantStore, get_by_id, save, set_allowed_origins}
use livechat.TenantService.Kept.{after_edit, set_allowed_origins-immediate}

abbrev acme : Tenant
acme = record {
  id = "t1";
  name = "Acme";
  slug = "acme";
  domain = none;
  status = TenantStatus.active;
  expires_at = none;
  settings = none;
  embed_secret = "embed";
  allowed_origins = none;
  deleted_at = none;
}

-- The cache still refuses the site.
abbrev db : TenantStore
db = record {
  tenants = acme ∷ [];
  origin_cache = record { origin = "https://a.example"; allowed = false; expires_at = 60000 } ∷ [];
}

abbrev asked : List (ℕ × String)
asked = (5, "https://a.example") ∷ (6, "https://b.example") ∷ []

abbrev sites : Option (List String)
sites = some ("https://a.example" ∷ [])

edited : (set_allowed_origins "t1" sites db).0 ≡ ok (record acme { allowed_origins = sites })
unfolding set_allowed_origins get_by_id save find
edited = refl

set_allowed_origins-immediate_example :
    (let after = after_edit "t1" sites db in
      (find (tenant_by_id "t1") after.tenants ≡ some (record acme { allowed_origins = sites }))
      × (sites ≡ sites)
      × ((look_up after.tenants asked after.origin_cache).0
          ≡ map (λ q. allowed_anywhere q.1 after.tenants) asked))
set_allowed_origins-immediate_example =
    set_allowed_origins-immediate "t1" sites db (record acme { allowed_origins = sites }) asked
      edited
