-- ===== src/Admin/Confined.antt =====
-- api/src/routes/users.ts: an administrator of one tenant and the accounts of the others.
use livechat.ApiError.{ok, err, forbidden}
use livechat.Prelude.{
  String, ◌≡◌, refl, sym, ap, subst, ◌∙◌, inl, inr, true, false, Option, none, some, List, [], ◌∷◌,
  map, arith, ◌==◌, same, same_iff, filter, All, Bool-cases,
}
use livechat.Prelude.Action.{ok_injective, pure, bind_ok, of_result, ◌>>=◌, ◌>>◌}
use livechat.Auth.{admin, User, UserSafe, to_safe_json, find_user}
use livechat.Authorize.{require_role, resolve_tenant_filter, assert_tenant_access}
use livechat.Admin.{
  AdminRequest, AdminStore, caller_of, on_accounts, record_admin_audit, admin_route,
}
use livechat.Admin.Users.{
  UpdateUserInput, in_tenant, list_users, get_user, update_user, get_users_route, get_user_route,
  patch_user_route,
}

-- A tenant's administrator.
abbrev pub admin_of : String → String → AdminRequest
admin_of user_id tenant_id = record { user_id = user_id; role = admin; tenant_id = some tenant_id }

listed_in :
    (tenant_id : String) (users : List User)
    → All
        (λ u. u.tenant_id ≡ some tenant_id)
        (map to_safe_json (filter (in_tenant (some tenant_id)) users))
listed_in t [] = tt
listed_in t (u ∷ us) = elim (Bool-cases (same u.tenant_id (some t))) [
  | inl e ↦ rw e ((same_iff u.tenant_id (some t)).0 e, listed_in t us)
  | inr e ↦ rw e (listed_in t us)
]

module _ (user_id tenant_id : String) (db : AdminStore) where
  get_users_route-confined :
      (asked : Option String) (users : List UserSafe)
      → (get_users_route (admin_of user_id tenant_id) asked db).0 ≡ ok users
      → All (λ u. u.tenant_id ≡ some tenant_id) users
  unfolding get_users_route admin_route require_role resolve_tenant_filter list_users
  get_users_route-confined none users e =
      subst (All (λ u. u.tenant_id ≡ some tenant_id)) (ok_injective e)
        (listed_in tenant_id db.accounts.users)
  get_users_route-confined (some asked) users e = elim (Bool-cases (asked == tenant_id)) [
    | inl own ↦
        subst (All (λ u. u.tenant_id ≡ some tenant_id)) (ok_injective (sym (answered own) ∙ e))
          (listed_in tenant_id db.accounts.users)
    | inr other ↦ absurd (no_list other e)
  ]
    where
      answered :
          (asked == tenant_id) ≡ true
          → (get_users_route (admin_of user_id tenant_id) (some asked) db).0
            ≡ ok (map to_safe_json (filter (in_tenant (some tenant_id)) db.accounts.users))
      answered own = rw own refl

      no_list :
          (asked == tenant_id) ≡ false
          → ¬ ((get_users_route (admin_of user_id tenant_id) (some asked) db).0 ≡ ok users)
      no_list other p = ground arith

  pub get_user-found :
      (id : String) (user : User)
      → find_user id db.accounts ≡ some user
      → get_user id db.accounts ≡ (ok (to_safe_json user), db.accounts)
  unfolding get_user
  get_user-found id user found = ground arith

  patch_user_route-foreign :
      (id : String) (body : UpdateUserInput) (user : User)
      → find_user id db.accounts ≡ some user
      → same user.tenant_id (some tenant_id) ≡ false
      → (patch_user_route (admin_of user_id tenant_id) id body db
          ≡ (err (forbidden "Access denied to this tenant"), db))
        × (get_user_route (admin_of user_id tenant_id) id db
            ≡ (err (forbidden "Access denied to this tenant"), db))
  unfolding patch_user_route get_user_route admin_route require_role assert_tenant_access
  patch_user_route-foreign id body user found foreign =
      let req = admin_of user_id tenant_id in
      let read = ap (λ r. (r.0, record db { accounts = r.1 })) (get_user-found id user found) in
      (
        bind_ok (on_accounts (get_user id))
              (λ existing.
                of_result (assert_tenant_access (caller_of req) existing.tenant_id)
                >> (on_accounts (update_user id body) >>= λ u.
                    record_admin_audit req u.tenant_id "user.update" "user" u.id >> pure u))
              db read
            ∙ rw foreign refl,
        bind_ok (on_accounts (get_user id))
              (λ u. of_result (assert_tenant_access (caller_of req) u.tenant_id) >> pure u) db read
            ∙ rw foreign refl,
      )

  -- An administrator of one tenant sees and changes no account of another: whatever tenant is asked
  -- for, the list holds the own tenant's accounts alone, and reading or patching a foreign account is
  -- refused with 403 and changes nothing.
  pub users_routes-confined :
      (asked : Option String) (users : List UserSafe) (id : String) (body : UpdateUserInput)
      → ((get_users_route (admin_of user_id tenant_id) asked db).0 ≡ ok users
          → All (λ u. u.tenant_id ≡ some tenant_id) users)
        × ((user : User)
            → find_user id db.accounts ≡ some user
            → same user.tenant_id (some tenant_id) ≡ false
            → (patch_user_route (admin_of user_id tenant_id) id body db
                ≡ (err (forbidden "Access denied to this tenant"), db))
              × (get_user_route (admin_of user_id tenant_id) id db
                  ≡ (err (forbidden "Access denied to this tenant"), db)))
  users_routes-confined asked users id body =
      (get_users_route-confined asked users, patch_user_route-foreign id body)
