-- ===== src/Origins/Tests.antt =====
-- Sites at concrete inputs, and the theorems on them.
use livechat.ApiError.{ok}
use livechat.Prelude.{
  ◌≡◌, refl, ◌≤◌, ◌↔◌, ◌⊎◌, true, false, none, some, [], ◌∷◌, arith, find, includes, length,
}
use livechat.Models.{Tenant, TenantStatus, has_slug}
use livechat.Origins.{
  TenantRequest, is_widget_facing_path, allowed_anywhere, build_cors_delegate, origin_allowed,
}
use livechat.Origins.Cached.{look_up, look_up-le}
use livechat.Origins.Strict.{embeds_iff}

abbrev acme : Tenant
acme = record {
  id = "t1";
  name = "Acme";
  slug = "acme";
  domain = none;
  status = TenantStatus.active;
  expires_at = none;
  settings = none;
  embed_secret = "embed";
  allowed_origins = some ("https://a.example" ∷ []);
  deleted_at = none;
}

look_up-le_example :
    length (look_up (acme ∷ []) ((5, "https://a.example") ∷ (6, "https://b.example") ∷ []) []).1
    ≤ 10000
look_up-le_example =
    look_up-le (acme ∷ []) ((5, "https://a.example") ∷ (6, "https://b.example") ∷ []) []
      (omega arith)

abbrev call : TenantRequest
call = record {
  origin = some "https://a.example";
  query_tenant_key = some "acme";
  body_tenant_key = none;
}

facing : is_widget_facing_path "/api/v1/visitor/session" ≡ true
unfolding is_widget_facing_path
facing = refl

found_acme : find (λ t. has_slug "acme" t) (acme ∷ []) ≡ some acme
unfolding find
found_acme = refl

embeds_iff_example :
    (((build_cors_delegate "https://console.example" 5 "/api/v1/visitor/session"
          (some "https://a.example")
          (acme ∷ [])
          []).0
        ≡ some "https://a.example")
      × (origin_allowed call (acme ∷ []) ≡ ok tt))
    ↔ ((allowed_anywhere "https://a.example" (acme ∷ []) ≡ true)
        × ((false ≡ true) ⊎ (includes "https://a.example" ("https://a.example" ∷ []) ≡ true)))
embeds_iff_example =
    embeds_iff "https://console.example" 5 "/api/v1/visitor/session" "https://a.example" (acme ∷ [])
      [] call "acme" acme facing refl tt refl refl found_acme
