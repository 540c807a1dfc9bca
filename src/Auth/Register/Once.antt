-- ===== src/Auth/Register/Once.antt =====
-- api/src/services/auth-service.ts: an invitation is good for one account.
use livechat.ApiError.{ok, err, bad_request}
use livechat.Prelude.{
  ℕ, ◌≤◌, String, ◌≡◌, refl, ap, ◌∙◌, true, false, none, some, List, [], ◌∷◌, ◌++◌, arith, eq_iff,
  ◌==◌, any, find, update, All,
}
use livechat.Auth.{User, to_safe_json, Invitation, AuthStore, Libraries, has_email}
use livechat.Auth.Register.{RegisterInput, pending_with, is_expired, accept, invited_user, register}

find-accepted :
    (lib : Libraries) (now : ℕ) (token id : String) (is : List Invitation)
    → All (λ i. pending_with token i ≡ true → i.id ≡ id) is
    → find (pending_with token) (update (λ i. i.id == id) (accept lib now) is) ≡ none
unfolding find update
find-accepted lib now token id [] only = refl
find-accepted lib now token id (i ∷ is) (one, only) =
    ground (arith, eq_iff i.id id, one, find-accepted lib now token id is only)

module _ (lib : Libraries) where
  register-spent :
      (now : ℕ) (id salt token : String) (input : RegisterInput) (db : AuthStore)
      → find (pending_with input.token) db.invitations ≡ none
      → register lib now id salt token input db
        ≡ (err (bad_request "Invalid or expired invitation"), db)
  unfolding register
  register-spent now id salt token input db gone = ground arith

  register-accepts :
      (now : ℕ) (id salt token : String) (input : RegisterInput) (db : AuthStore)
      {invitation : Invitation}
      → find (pending_with input.token) db.invitations ≡ some invitation
      → now ≤ invitation.expires_at
      → lib.to_lower_case invitation.email ≡ lib.to_lower_case input.email
      → any (has_email (lib.to_lower_case input.email)) db.users ≡ false
      → ((register lib now id salt token input db).0
          ≡ ok (to_safe_json (invited_user lib now id salt token input invitation)))
        × ((register lib now id salt token input db).1.users
            ≡ db.users ++ invited_user lib now id salt token input invitation ∷ [])
        × ((register lib now id salt token input db).1.invitations
            ≡ update (λ i. i.id == invitation.id) (accept lib now) db.invitations)
  unfolding register is_expired
  register-accepts now id salt token input db {invitation} found live email free =
      ground (arith, eq_iff (lib.to_lower_case invitation.email) (lib.to_lower_case input.email))

  -- A registration with a pending invitation that has not expired, by the invited email, which is not
  -- taken, makes one account with the role and the tenant of the invitation, and the invitation
  -- cannot be used again, whoever tries.
  pub register-once :
      (now later : ℕ) (id id' salt token token' : String) (input again : RegisterInput)
      (db : AuthStore) (invitation : Invitation)
      → find (pending_with input.token) db.invitations ≡ some invitation
      → now ≤ invitation.expires_at
      → lib.to_lower_case invitation.email ≡ lib.to_lower_case input.email
      → any (has_email (lib.to_lower_case input.email)) db.users ≡ false
      → All (λ i. pending_with input.token i ≡ true → i.id ≡ invitation.id) db.invitations
      → again.token ≡ input.token
      → ((user : User) × ((register lib now id salt token input db).1.users ≡ db.users ++ user ∷ [])
          × (user.role ≡ invitation.role)
          × (user.tenant_id ≡ invitation.tenant_id))
        × (register lib later id' salt token' again (register lib now id salt token input db).1 ≡ (
          err (bad_request "Invalid or expired invitation"),
          (register lib now id salt token input db).1,
        ))
  unfolding invited_user
  register-once now later id id' salt token token' input again db invitation found live email free
        only reused =
      let (made, users, invitations) =
        register-accepts now id salt token input db found live email free in
      (
        (invited_user lib now id salt token input invitation, users, refl, refl),
        register-spent later id' salt token' again (register lib now id salt token input db).1 (
            ap (λ t. find (pending_with t) (register lib now id salt token input db).1.invitations)
              reused
            ∙ ap (find (pending_with input.token)) invitations
            ∙ find-accepted lib now input.token invitation.id db.invitations only),
      )
