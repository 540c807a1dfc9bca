-- ===== src/Visitor/Session/Revoked.antt =====
-- api/src/services/visitor-session-service.ts: which cookies work, and when they stop.
use livechat.ApiError.{ok, err, unauthorized, forbidden}
use livechat.Prelude.{
  ℕ, String, ◌≡◌, refl, ◌⊎◌, inl, inr, true, false, not, Option, none, some, List, [], ◌∷◌, arith,
  eq_iff, ◌==◌, includes, find, filter, All, Bool-cases,
}
use livechat.Models.{VisitorSession, Store, destroy_sessions}
use livechat.Visitor.Cookie.{CookieFunctions, verify_visitor_cookie, hash_session_id}
use livechat.Visitor.Session.{
  SessionEnv, has_cookie_hash, find_by_subject, foreign, revoke_by_id, find_by_cookie,
}

find-gone :
    (key id : String) (ss : List VisitorSession)
    → All (λ s. has_cookie_hash key s ≡ true → s.id ≡ id) ss
    → find (has_cookie_hash key) (filter (λ s. not (includes s.id (id ∷ []))) ss) ≡ none
unfolding find
find-gone key id [] only = refl
find-gone key id (s ∷ ss) (one, only) = ground (arith, eq_iff s.id id, find-gone key id ss only)

-- The subject key belongs to one session.
abbrev pub Only : String → String → Store → Type 0
Only key id db = All (λ s. has_cookie_hash key s ≡ true → s.id ≡ id) db.visitor_sessions

pub find_by_subject-gone :
    (key id : String) (db : Store)
    → Only key id db
    → find_by_subject key (destroy_sessions (id ∷ []) db) ≡ none
unfolding find_by_subject destroy_sessions
find_by_subject-gone key id db only = find-gone key id db.visitor_sessions only

-- Who may revoke a session: staff that span every tenant, and those of its tenant.
abbrev pub MayRevoke : Option String → VisitorSession → Type 0
MayRevoke none session = Unit
MayRevoke (some tenant_id) session = session.tenant_id ≡ tenant_id

foreign-cases :
    (caller : Option String) (session : VisitorSession)
    → (MayRevoke caller session × (foreign caller session ≡ false))
      ⊎ ((¬ MayRevoke caller session) × (foreign caller session ≡ true))
foreign-cases none session = inl (tt, refl)
foreign-cases (some t) session = elim (Bool-cases (session.tenant_id == t)) [
  | inl own ↦ inl ((eq_iff session.tenant_id t).0 own, ground arith)
  | inr other ↦ inr (ground (arith, eq_iff session.tenant_id t), ground arith)
]

module _ (lib : CookieFunctions) (env : SessionEnv) where
  find_by_cookie-missing :
      (now : ℕ) (cookie session_id : String) (db : Store)
      → verify_visitor_cookie lib env.cookie_secret cookie ≡ ok session_id
      → find_by_subject (hash_session_id lib env.cookie_secret session_id) db ≡ none
      → find_by_cookie lib env now cookie db ≡ (err (unauthorized "Visitor session not found"), db)
  unfolding find_by_cookie
  find_by_cookie-missing now cookie session_id db valid gone = ground arith

  -- Of a session that is stored and the only one with the key of a signed cookie: untenanted staff and
  -- staff of its tenant revoke it, and on the tables that this leaves the cookie is answered 401;
  -- anybody else is answered 403 and changes nothing.
  pub revoke_by_id-ends :
      (now : ℕ) (cookie session_id : String) (caller : Option String) (session : VisitorSession)
      (db : Store)
      → verify_visitor_cookie lib env.cookie_secret cookie ≡ ok session_id
      → find (λ s. s.id == session.id) db.visitor_sessions ≡ some session
      → Only (hash_session_id lib env.cookie_secret session_id) session.id db
      → (MayRevoke caller session
          × (revoke_by_id session.id caller db
              ≡ (ok (session.tenant_id, session.id), destroy_sessions (session.id ∷ []) db))
          × (find_by_cookie lib env now cookie (destroy_sessions (session.id ∷ []) db) ≡ (
            err (unauthorized "Visitor session not found"),
            destroy_sessions (session.id ∷ []) db,
          )))
        ⊎ ((¬ MayRevoke caller session)
            × (revoke_by_id session.id caller db
                ≡ (err (forbidden "Visitor belongs to a different tenant"), db)))
  unfolding revoke_by_id
  revoke_by_id-ends now cookie session_id caller session db valid found only =
      elim (foreign-cases caller session) [
        | inl (may, own) ↦ inl (
          may,
          ground arith,
          find_by_cookie-missing now cookie session_id (destroy_sessions (session.id ∷ []) db) valid
              missing,
        )
        | inr (other, e) ↦ inr (other, ground arith)
      ]
    where
      key : String
      key = hash_session_id lib env.cookie_secret session_id

      missing : find_by_subject key (destroy_sessions (session.id ∷ []) db) ≡ none
      missing = find_by_subject-gone key session.id db only
