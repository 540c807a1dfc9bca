-- ===== src/Admin/Tenants.antt =====
-- api/src/routes/tenants.ts. The origins of a body are its array's texts, or none where it is no
-- array.
use livechat.Prelude.{ℕ, String, Option, none, some, List, filter, ◌==◌}
use livechat.Prelude.Action.{Action, pure, gets, of_result, ◌>>=◌, ◌>>◌}
use livechat.Models.{Tenant}
use livechat.Authorize.{caller_tenant_scope, assert_tenant_access}
use livechat.TenantService.{
  CreateTenantInput, UpdateTenantInput, create, list, get_by_id, update_tenant, remove,
  rotate_embed_secret, set_allowed_origins,
}
use livechat.Admin.{
  AdminRequest, AdminStore, caller_of, on_tenants, record_admin_audit, admin_route,
  super_admin_only,
}

abbrev pub visible : Option String → List Tenant → List Tenant
visible none tenants = tenants
visible (some scope) tenants = filter (λ t. t.id == scope) tenants

module _ (req : AdminRequest) where
  -- GET /tenants
  unfoldable pub get_tenants_route : Action AdminStore (List Tenant)
  unfolding admin_route
  get_tenants_route =
      admin_route req (gets (λ db. visible (caller_tenant_scope (caller_of req)) (list db.tenants)))

  -- POST /tenants
  unfoldable pub post_tenant_route : String → String → CreateTenantInput → Action AdminStore Tenant
  unfolding admin_route super_admin_only record_admin_audit
  post_tenant_route id embed_secret body = admin_route req (
      super_admin_only req do
        tenant ← on_tenants (create id embed_secret body)
        record_admin_audit req none "tenant.create" "tenant" tenant.id
        pure tenant)

  -- GET /tenants/:id
  unfoldable pub get_tenant_route : String → Action AdminStore Tenant
  unfolding admin_route
  get_tenant_route id = admin_route req do
    tenant ← on_tenants (get_by_id id)
    of_result (assert_tenant_access (caller_of req) (some tenant.id))
    pure tenant

  -- PATCH /tenants/:id
  unfoldable pub patch_tenant_route : String → UpdateTenantInput → Action AdminStore Tenant
  unfolding admin_route super_admin_only record_admin_audit
  patch_tenant_route id body = admin_route req (
      super_admin_only req do
        tenant ← on_tenants (update_tenant id body)
        record_admin_audit req none "tenant.update" "tenant" tenant.id
        pure tenant)

  -- DELETE /tenants/:id
  unfoldable pub delete_tenant_route : ℕ → String → Action AdminStore (Unit {0})
  unfolding admin_route super_admin_only record_admin_audit
  delete_tenant_route now id = admin_route req (
      super_admin_only req
        do on_tenants (remove now id); record_admin_audit req none "tenant.delete" "tenant" id)

  -- POST /tenants/:id/rotate-embed-secret
  unfoldable pub rotate_embed_secret_route : String → String → Action AdminStore String
  unfolding admin_route super_admin_only record_admin_audit
  rotate_embed_secret_route fresh_secret id = admin_route req (
      super_admin_only req do
        secret ← on_tenants (rotate_embed_secret fresh_secret id)
        record_admin_audit req none "tenant.rotate_embed_secret" "tenant" id
        pure secret)

  -- PUT /tenants/:id/allowed-origins
  unfoldable pub put_allowed_origins_route :
      String → Option (List String) → Action AdminStore Tenant
  unfolding admin_route super_admin_only
  put_allowed_origins_route id origins =
      admin_route req (super_admin_only req (on_tenants (set_allowed_origins id origins)))
