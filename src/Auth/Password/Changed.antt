-- ===== src/Auth/Password/Changed.antt =====
-- api/src/services/auth-service.ts: what a change of password leaves.
use livechat.ApiError.{ok, err, unauthorized}
use livechat.Prelude.{
  ℕ, String, ◌≡◌, ◌≢◌, refl, ap, ◌∙◌, true, some, List, [], ◌∷◌, arith, eq_iff, find, find-holds,
  update,
}
use livechat.Auth.{
  User, AuthStore, RefreshPayload, Libraries, has_id, find_user, save_user, destroy_sessions,
}
use livechat.Auth.Login.{Fresh, refresh}
use livechat.Auth.Login.Sessions.{refresh-destroyed}
use livechat.Auth.Password.{set_password, change_password}

find-saved :
    (id : String) (f : User → User) (users : List User) {user : User}
    → ((u : User) → (f u).id ≡ u.id)
    → find (has_id id) users ≡ some user
    → find (has_id id) (update (has_id id) f users) ≡ some (f user)
unfolding find update
find-saved id f [] keep found = ground arith
find-saved id f (u ∷ users) {user} keep found =
    ground (arith, keep u, eq_iff u.id id, find-saved id f users {user = user} keep)

module _ (lib : Libraries) where
  -- A password that the hook hashed is the one that later matches; only a text that is the stored
  -- hash itself would not be hashed.
  compare-set_password :
      (salt password : String) (u : User)
      → password ≢ u.password_hash
      → lib.compare password (set_password lib salt password u).password_hash ≡ true
  compare-set_password salt password u new =
      let hashed = lib.compare-hash salt password in ground (arith, eq_iff password u.password_hash)

  change_password-saves :
      (salt id current password : String) (db : AuthStore) {user : User}
      → find_user id db ≡ some user
      → lib.compare current user.password_hash ≡ true
      → change_password lib salt id current password db
        ≡ (ok tt, destroy_sessions id (save_user user.id (set_password lib salt password) db))
  unfolding change_password
  change_password-saves salt id current password db found right = ground arith

  -- After a user changed the password, the new one matches and no refresh token of the user works.
  pub change_password-ends :
      (salt current password token : String) (now : ℕ) (fresh : Fresh) (p : RefreshPayload)
      (db : AuthStore) (user : User)
      → find_user p.sub db ≡ some user
      → lib.compare current user.password_hash ≡ true
      → password ≢ user.password_hash
      → lib.verify_refresh now token ≡ some p
      → p.token_type ≡ "refresh"
      → ((changed : User) × (find_user p.sub (change_password lib salt p.sub current password db).1
            ≡ some changed)
          × (lib.compare password changed.password_hash ≡ true))
        × ((refresh lib now fresh token (change_password lib salt p.sub current password db).1).0
            ≡ err (unauthorized "Session not found"))
  change_password-ends salt current password token now fresh p db user found right new valid kind =
      let done = change_password-saves salt p.sub current password db found right in
      let f = set_password lib salt password in
      let holds = find-holds (has_id p.sub) db.users found in
      let owner : user.id ≡ p.sub = (eq_iff user.id p.sub).0 holds in
      (
        (
          f user,
          ap (λ r. find_user p.sub r.1) done
              ∙ ap (λ id. find (has_id p.sub) (update (has_id id) f db.users)) owner
              ∙ find-saved p.sub f db.users (λ u. refl) found,
          compare-set_password salt password user new,
        ),
        ap (λ r. (refresh lib now fresh token r.1).0) done
            ∙ ap (λ r. r.0)
                (refresh-destroyed lib now fresh token p (save_user user.id f db) valid kind),
      )
