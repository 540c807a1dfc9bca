-- ===== src/Origins/Strict.antt =====
-- api/src/middlewares/cors.ts and origin-allowed.ts, together: which sites may call for a tenant.
use livechat.ApiError.{ok}
use livechat.Prelude.{
  ℕ, String, ◌≡◌, refl, ap, ◌∙◌, ◌↔◌, ◌⊎◌, Bool, true, false, none, some, List, arith, ◌==◌, find,
  includes, is_nil, if◌then◌else◌,
}
use livechat.Models.{Tenant, has_slug}
use livechat.Origins.{
  Cache, is_widget_facing_path, allowed_anywhere, is_known_widget_origin, known_policy, cors_of,
  build_cors_delegate, TenantRequest, resolve_tenant_key, origins_of, origin_allowed,
}
use livechat.Origins.Cached.{Exact, is_known_widget_origin-Exact}

module _ (app_url : String) (now : ℕ) (path origin : String) (tenants : List Tenant)
    (cache : Cache) where
  known_policy-reflects :
      (answer : Bool × Cache)
      → (known_policy origin answer).0 ≡ (if answer.0 then some origin else none)
  unfolding known_policy
  known_policy-reflects (allowed, after) = refl

  build_cors_delegate-foreign :
      is_widget_facing_path path ≡ true
      → (origin == app_url) ≡ false
      → Exact tenants cache
      → (build_cors_delegate app_url now path (some origin) tenants cache).0
        ≡ (if allowed_anywhere origin tenants then some origin else none)
  unfolding build_cors_delegate cors_of
  build_cors_delegate-foreign facing foreign exact =
      rw (facing, foreign)
        (known_policy-reflects (is_known_widget_origin now origin tenants cache)
          ∙ ap (λ b. if b then some origin else none)
              (is_known_widget_origin-Exact now origin tenants cache exact).0)

  -- A site other than the console may call for a tenant exactly when some active tenant lists it
  -- and the tenant itself lists it or lists nothing.
  pub embeds_iff :
      (req : TenantRequest) (key : String) (tenant : Tenant)
      → is_widget_facing_path path ≡ true
      → (origin == app_url) ≡ false
      → Exact tenants cache
      → req.origin ≡ some origin
      → resolve_tenant_key req ≡ some key
      → find (has_slug key) tenants ≡ some tenant
      → (((build_cors_delegate app_url now path (some origin) tenants cache).0 ≡ some origin)
          × (origin_allowed req tenants ≡ ok tt))
        ↔ ((allowed_anywhere origin tenants ≡ true)
            × ((is_nil (origins_of tenant.allowed_origins) ≡ true)
                ⊎ (includes origin (origins_of tenant.allowed_origins) ≡ true)))
  unfolding origin_allowed
  embeds_iff req key tenant facing foreign exact from named found =
      let reflected = build_cors_delegate-foreign facing foreign exact in
      rw (reflected, from, named, found) (ground arith)
