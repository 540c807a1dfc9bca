-- ===== src/Admin/Users.antt =====
-- api/src/services/user-service.ts and api/src/routes/users.ts. The columns that the accounts leave
-- out (phone, timezone, language, preferences) are left out of a patch too.
use livechat.ApiError.{not_found}
use livechat.Prelude.{String, Bool, true, Option, none, some, List, map, filter, same}
use livechat.Prelude.Action.{Action, pure, gets, or_throw, of_result, modify, ◌>>=◌, ◌>>◌}
use livechat.Auth.{Role, UserStatus, User, UserSafe, to_safe_json, AuthStore, find_user, save_user}
use livechat.Authorize.{assert_tenant_access, resolve_tenant_filter}
use livechat.TenantService.{changed}
use livechat.Admin.{
  AdminRequest, AdminStore, caller_of, on_accounts, record_admin_audit, admin_route,
}

pub record UpdateUserInput : Type 0 where
  pub first_name : Option String
  pub last_name : Option String
  pub role : Option Role
  pub status : Option UserStatus

abbrev pub in_tenant : Option String → User → Bool
in_tenant none u = true
in_tenant (some t) u = same u.tenant_id (some t)

unfoldable pub list_users : Option String → AuthStore → List UserSafe
list_users tenant_id db = map to_safe_json (filter (in_tenant tenant_id) db.users)

unfoldable pub get_user : String → Action AuthStore UserSafe
get_user id = do
  found ← gets (find_user id)
  user ← or_throw found (not_found "User not found")
  pure (to_safe_json user)

abbrev pub patched_user : UpdateUserInput → User → User
patched_user input u = record u {
  first_name = changed input.first_name u.first_name;
  last_name = changed input.last_name u.last_name;
  role = changed input.role u.role;
  status = changed input.status u.status;
}

unfoldable pub update_user : String → UpdateUserInput → Action AuthStore UserSafe
update_user id input = do
  found ← gets (find_user id)
  user ← or_throw found (not_found "User not found")
  modify (save_user user.id (patched_user input))
  pure (to_safe_json (patched_user input user))

module _ (req : AdminRequest) where
  -- GET /users
  unfoldable pub get_users_route : Option String → Action AdminStore (List UserSafe)
  unfolding admin_route
  get_users_route asked = admin_route req do
    tenant_id ← of_result (resolve_tenant_filter (caller_of req) asked)
    gets (λ db. list_users tenant_id db.accounts)

  -- GET /users/:id
  unfoldable pub get_user_route : String → Action AdminStore UserSafe
  unfolding admin_route get_user
  get_user_route id = admin_route req do
    user ← on_accounts (get_user id)
    of_result (assert_tenant_access (caller_of req) user.tenant_id)
    pure user

  -- PATCH /users/:id
  unfoldable pub patch_user_route : String → UpdateUserInput → Action AdminStore UserSafe
  unfolding admin_route get_user update_user record_admin_audit
  patch_user_route id body = admin_route req do
    existing ← on_accounts (get_user id)
    of_result (assert_tenant_access (caller_of req) existing.tenant_id)
    user ← on_accounts (update_user id body)
    record_admin_audit req user.tenant_id "user.update" "user" user.id
    pure user
