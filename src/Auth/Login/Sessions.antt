-- ===== src/Auth/Login/Sessions.antt =====
-- api/src/services/auth-service.ts: when a token stops working.
use livechat.ApiError.{ok, err, unauthorized}
use livechat.Prelude.{
  ℕ, ◌+◌, ◌*◌, ◌<◌, ◌≤◌, String, ◌≡◌, ◌≢◌, refl, ap, ◌∙◌, true, not, ◌&&◌, none, some, List, [],
  ◌∷◌, arith, eq_iff, ◌==◌, ltb, any-append, find, update, filter, All,
}
use livechat.Auth.{
  User, UserSession, AuthStore, RefreshPayload, AccessTokenPayload, Libraries, find_user,
  destroy_sessions, UserStatus,
}
use livechat.Auth.Login.{
  Fresh, is_session, is_blacklisted, revoked, logout, rotate_session, refresh_session, refresh,
  generate_access_token, generate_refresh_token, authenticate_access_token,
}

pub find-destroyed :
    (lib : Libraries) (p : RefreshPayload) (ss : List UserSession)
    → find (is_session lib p) (filter (λ s. not (s.user_id == p.sub)) ss) ≡ none
unfolding find
find-destroyed lib p [] = refl
find-destroyed lib p (s ∷ ss) = ground (arith, find-destroyed lib p ss)

module _ (lib : Libraries) where
  -- A refresh token is worth nothing once its user's sessions are destroyed.
  pub refresh-destroyed :
      (now : ℕ) (fresh : Fresh) (token : String) (p : RefreshPayload) (db : AuthStore)
      → lib.verify_refresh now token ≡ some p
      → p.token_type ≡ "refresh"
      → refresh lib now fresh token (destroy_sessions p.sub db)
        ≡ (err (unauthorized "Session not found"), destroy_sessions p.sub db)
  unfolding refresh refresh_session
  refresh-destroyed now fresh token p db valid kind =
      let gone = find-destroyed lib p db.user_sessions in
      ground (arith, eq_iff p.token_type "refresh")

  logout-blacklisted :
      (now later : ℕ) (user_id jti : String) (db : AuthStore)
      → later < now + 3600 * 1000
      → is_blacklisted lib later jti (logout lib now user_id jti db).1 ≡ true
  unfolding logout
  logout-blacklisted now later user_id jti db soon = ground (
    arith,
    eq_iff jti jti,
    any-append (λ b. b.jti == jti && ltb later b.expires_at) db.redis (revoked lib now jti ∷ []),
  )

  -- On the tables that a logout leaves, the access token is refused for the hour that follows, and
  -- every refresh token of the user is refused at any later time.
  pub logout-ends :
      (now within later : ℕ) (fresh : Fresh) (token renewal : String) (access : AccessTokenPayload)
      (p : RefreshPayload) (db : AuthStore)
      → lib.verify_access within token ≡ some access
      → within < now + 3600 * 1000
      → lib.verify_refresh later renewal ≡ some p
      → p.token_type ≡ "refresh"
      → ((authenticate_access_token lib within token (logout lib now p.sub access.jti db).1).0
          ≡ err (unauthorized "Token has been revoked"))
        × ((refresh lib later fresh renewal (logout lib now p.sub access.jti db).1).0
            ≡ err (unauthorized "Session not found"))
  unfolding authenticate_access_token logout
  logout-ends now within later fresh token renewal access p db valid_access soon valid kind =
      let dead = logout-blacklisted now within p.sub access.jti db soon in
      (ground arith, ap (λ r. r.0) (refresh-destroyed later fresh renewal p _ valid kind))

  find-rotated :
      (id jti hash : String) (last expires : ℕ) (p : RefreshPayload) (ss : List UserSession)
      → All (λ s. is_session lib p s ≡ true → s.id ≡ id) ss
      → jti ≢ p.jti
      → find (is_session lib p) (
          update
            (λ s. s.id == id)
            (λ s. record s {
              refresh_token_hash = hash;
              jti = jti;
              last_activity_at = last;
              expires_at = expires;
            })
            ss)
        ≡ none
  unfolding find update
  find-rotated id jti hash last expires p [] only new = refl
  find-rotated id jti hash last expires p (s ∷ ss) (one, only) new = ground (
    arith,
    eq_iff jti p.jti,
    eq_iff s.id id,
    one,
    find-rotated id jti hash last expires p ss only new,
  )

  refresh-missing :
      (now : ℕ) (fresh : Fresh) (token : String) (p : RefreshPayload) (db : AuthStore)
      → lib.verify_refresh now token ≡ some p
      → p.token_type ≡ "refresh"
      → find (is_session lib p) db.user_sessions ≡ none
      → (refresh lib now fresh token db).0 ≡ err (unauthorized "Session not found")
  unfolding refresh refresh_session
  refresh-missing now fresh token p db valid kind gone =
      ground (arith, eq_iff p.token_type "refresh")

  refresh-rotates :
      (now : ℕ) (fresh : Fresh) (token : String) (p : RefreshPayload) (db : AuthStore)
      {session : UserSession} {user : User}
      → lib.verify_refresh now token ≡ some p
      → p.token_type ≡ "refresh"
      → find (is_session lib p) db.user_sessions ≡ some session
      → now ≤ session.expires_at
      → lib.compare token session.refresh_token_hash ≡ true
      → find_user p.sub db ≡ some user
      → user.status ≡ UserStatus.active
      → refresh lib now fresh token db ≡ (
        ok (
          generate_access_token lib user fresh.access_jti,
          generate_refresh_token lib user fresh.refresh_jti,
        ),
        rotate_session lib now fresh user session db,
      )
  unfolding refresh refresh_session
  refresh-rotates now fresh token p db valid kind found live match owner active =
      ground (arith, eq_iff p.token_type "refresh")

  rotate_session-gone :
      (now : ℕ) (fresh : Fresh) (p : RefreshPayload) (user : User) (session : UserSession)
      (db : AuthStore)
      → All (λ s. is_session lib p s ≡ true → s.id ≡ session.id) db.user_sessions
      → fresh.refresh_jti ≢ p.jti
      → find (is_session lib p) (rotate_session lib now fresh user session db).user_sessions ≡ none
  unfolding rotate_session
  rotate_session-gone now fresh p user session db only new =
      find-rotated session.id fresh.refresh_jti _ now _ p db.user_sessions only new

  -- A refresh token works once: after a refresh with it, which succeeds, it is refused.
  pub refresh-once :
      (now later : ℕ) (fresh fresh' : Fresh) (token : String) (p : RefreshPayload) (db : AuthStore)
      (session : UserSession) (user : User)
      → lib.verify_refresh now token ≡ some p
      → lib.verify_refresh later token ≡ some p
      → p.token_type ≡ "refresh"
      → find (is_session lib p) db.user_sessions ≡ some session
      → now ≤ session.expires_at
      → lib.compare token session.refresh_token_hash ≡ true
      → find_user p.sub db ≡ some user
      → user.status ≡ UserStatus.active
      → All (λ s. is_session lib p s ≡ true → s.id ≡ session.id) db.user_sessions
      → fresh.refresh_jti ≢ p.jti
      → ((tokens : String × String) × ((refresh lib now fresh token db).0 ≡ ok tokens))
        × ((refresh lib later fresh' token (refresh lib now fresh token db).1).0
            ≡ err (unauthorized "Session not found"))
  refresh-once now later fresh fresh' token p db session user v w kind found live match owner active
        only new =
      let first = refresh-rotates now fresh token p db v kind found live match owner active in
      (
        (_, ap (λ r. r.0) first),
        refresh-missing later fresh' token p (refresh lib now fresh token db).1 w kind (
            ap (λ r. find (is_session lib p) r.1.user_sessions) first
            ∙ rotate_session-gone now fresh p user session db only new),
      )
