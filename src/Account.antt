-- ===== src/Account.antt =====
-- api/src/routes/auth.ts, with `authenticate` of api/src/middlewares/authenticate.ts once the bearer
-- token is taken off its header: the routes of a staff member's account. `GET /me`, which joins the
-- tenant's name, is left out, and so are the answers' texts.
use livechat.ApiError.{ApiError, Result, ok, err, bad_request}
use livechat.Prelude.{
  ℕ, String, ◌≡◌, refl, ◌⊎◌, inl, inr, Option, none, some, List, [], ◌∷◌, ◌++◌, arith,
}
use livechat.Prelude.Action.{Action, pure, throw, or_throw, modify, Result-cases, ◌>>=◌, ◌>>◌}
use livechat.Auth.{User, UserSafe, AuthStore, Libraries}
use livechat.Auth.Login.{
  Fresh, LoginInput, LoginResult, login, logout, refresh, authenticate_access_token,
}
use livechat.Auth.Password.{forgot_password, reset_password, change_password, verify_email}
use livechat.Auth.Register.{RegisterInput, register}

-- An entry, without the address and the agent of the request and its metadata.
pub record AccountEntry : Type 0 where
  pub user_id : Option String
  pub tenant_id : Option String
  pub action : String
  pub resource_id : Option String

pub record AccountStore : Type 0 where
  pub accounts : AuthStore
  pub audit_logs : List AccountEntry

abbrev pub on_auth : {A : Type 0} → Action AuthStore A → Action AccountStore A
on_auth m db = let (r, accounts) = m db.accounts in (r, record db { accounts = accounts })

-- `recordAudit` with the actor and its tenant.
abbrev pub audit :
    String → Option String → Option String → Option String → Action AccountStore (Unit {0})
audit action user_id tenant_id resource_id = modify (λ db. record db {
  audit_logs =
      db.audit_logs
      ++ record {
        user_id = user_id;
        tenant_id = tenant_id;
        action = action;
        resource_id = resource_id;
      }
        ∷ [];
})

-- Nobody is known.
abbrev pub audit_unknown : String → Action AccountStore (Unit {0})
audit_unknown action = audit action none none none

-- POST /verify-email/:token
unfoldable pub verify_email_route : ℕ → String → Action AccountStore (Unit {0})
verify_email_route now token = do
  on_auth (verify_email now token)
  audit_unknown "auth.email_verified"

module _ (lib : Libraries) (now : ℕ) where
  -- `authenticate`, which sets the user and the token's id.
  abbrev pub authenticate : String → Action AccountStore (User × String)
  authenticate token = on_auth (authenticate_access_token lib now token)

  -- POST /register
  unfoldable pub register_route :
      String → String → String → RegisterInput → Action AccountStore UserSafe
  register_route id salt verification_token body = do
    user ← on_auth (register lib now id salt verification_token body)
    audit "auth.register" (some user.id) user.tenant_id (some user.id)
    pure user

  -- The outcome of a login is audited, and a refusal is thrown on.
  audited_login : Result LoginResult → Action AccountStore LoginResult
  audited_login (ok result) =
      audit "auth.login" (some result.user.id) result.user.tenant_id (some result.user.id)
      >> pure result
  audited_login (err e) = audit_unknown "auth.login_failed" >> throw e

  -- POST /login
  unfoldable pub login_route : Fresh → LoginInput → Action AccountStore LoginResult
  unfolding audited_login
  login_route fresh body db =
      let (result, accounts) = login lib now fresh body db.accounts in
      audited_login result (record db { accounts = accounts })

  -- POST /logout
  unfoldable pub logout_route : String → Action AccountStore (Unit {0})
  logout_route token = do
    (user, jti) ← authenticate token
    on_auth (logout lib now user.id jti)
    audit "auth.logout" (some user.id) user.tenant_id none

  -- POST /refresh-token
  unfoldable pub refresh_route : Fresh → Option String → Action AccountStore (String × String)
  refresh_route fresh refresh_token = do
    token ← or_throw refresh_token (bad_request "refreshToken required")
    on_auth (refresh lib now fresh token)

  -- POST /forgot-password
  unfoldable pub forgot_password_route : String → String → Action AccountStore (Unit {0})
  forgot_password_route token email = do
    on_auth (forgot_password lib now token email)
    audit_unknown "auth.password_reset_requested"

  -- POST /reset-password
  unfoldable pub reset_password_route : String → String → String → Action AccountStore (Unit {0})
  reset_password_route salt token password = do
    on_auth (reset_password lib now salt token password)
    audit_unknown "auth.password_reset"

  -- PUT /change-password
  unfoldable pub change_password_route :
      String → String → String → String → Action AccountStore (Unit {0})
  change_password_route token salt current_password new_password = do
    (user, jti) ← authenticate token
    on_auth (change_password lib salt user.id current_password new_password)
    audit "auth.password_changed" (some user.id) user.tenant_id (some user.id)

  -- Every login attempt leaves one entry in the audit trail, which tells whether it succeeded, and is
  -- answered as the service answers it.
  pub login_route-audited :
      (fresh : Fresh) (body : LoginInput) (db : AccountStore)
      → (entry : AccountEntry) × ((login_route fresh body db).1.audit_logs
          ≡ db.audit_logs ++ entry ∷ [])
        × ((login_route fresh body db).0 ≡ (login lib now fresh body db.accounts).0)
        × ((login_route fresh body db).1.accounts ≡ (login lib now fresh body db.accounts).1)
        × (((r : LoginResult) × ((login_route fresh body db).0 ≡ ok r)
              × (entry.action ≡ "auth.login")
              × (entry.user_id ≡ some r.user.id))
            ⊎ ((e : ApiError) × ((login_route fresh body db).0 ≡ err e)
                × (entry.action ≡ "auth.login_failed")))
  unfolding login_route
  login_route-audited fresh body db = elim (Result-cases (login lib now fresh body db.accounts).0) [
    | inl (e, h) ↦ (failed, ground arith, ground arith, ground arith, inr (e, ground arith, refl))
    | inr (r, h) ↦
        (succeeded r, ground arith, ground arith, ground arith, inl (r, ground arith, refl, refl))
  ]
    where
      failed : AccountEntry
      failed = record {
        user_id = none;
        tenant_id = none;
        action = "auth.login_failed";
        resource_id = none;
      }

      succeeded : LoginResult → AccountEntry
      succeeded r = record {
        user_id = some r.user.id;
        tenant_id = r.user.tenant_id;
        action = "auth.login";
        resource_id = some r.user.id;
      }
