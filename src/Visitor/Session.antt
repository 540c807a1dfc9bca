-- ===== src/Visitor/Session.antt =====
-- api/src/services/visitor-session-service.ts. A new id and the clock are arguments; the two
-- lifetimes, in hours, come from the environment.
pub mod Revoked
use livechat.ApiError.{Result, ok, err, bad_request, unauthorized, not_found, forbidden}
use livechat.Prelude.{
  ℕ, ◌+◌, ◌-◌, ◌*◌, String, Bool, true, false, not, ◌&&◌, ◌||◌, Option, none, some, List, [], ◌∷◌,
  ◌++◌, ◌==◌, ltb, find, update, if◌then◌else◌,
}
use livechat.Prelude.Action.{Action, pure, throw, gets, or_throw, throw_if, modify, ◌>>=◌, ◌>>◌}
use livechat.Shared.{VisitorStatus}
use livechat.Models.{VisitorSession, Store, destroy_sessions}
use livechat.Visitor.Minimize.{TextFunctions, truncate_ip, coarsen_country}
use livechat.Visitor.Cookie.{
  CookieFunctions, mint_visitor_cookie, verify_visitor_cookie, hash_session_id,
}

pub record SessionEnv : Type 0 where
  pub cookie_secret : String
  pub absolute_ttl_hours : ℕ
  pub idle_ttl_hours : ℕ

abbrev pub ms_per_hour : ℕ
ms_per_hour = 60 * 60 * 1000

pub record CreateTrackedParams : Type 0 where
  pub tenant_id : String
  pub subject_key : String
  pub identity_token_sub : Option String
  pub user_agent : Option String
  pub ip_address : Option String
  pub language : Option String
  pub current_url : Option String
  pub referrer : Option String
  pub country : Option String
  pub city : Option String

-- `jwt.verify` with a secret: `none` where it throws, else the `sub` of the payload.
abbrev pub sub_of : Option (Option String) → Result (Option String)
sub_of none = err (bad_request "Invalid identity token")
sub_of (some none) = err (bad_request "Identity token missing sub claim")
sub_of (some (some sub)) =
    if sub == "" then err (bad_request "Identity token missing sub claim") else ok (some sub)

unfoldable pub verify_identity_token :
    (String → String → Option (Option String)) → Option String → String → Result (Option String)
verify_identity_token jwt_verify none secret = ok none
verify_identity_token jwt_verify (some token) secret = sub_of (jwt_verify token secret)

abbrev pub has_cookie_hash : String → VisitorSession → Bool
has_cookie_hash subject_key s = s.session_cookie_hash == subject_key

unfoldable pub find_by_subject : String → Store → Option VisitorSession
find_by_subject subject_key db = find (has_cookie_hash subject_key) db.visitor_sessions

unfoldable pub forget_by_subject_key : String → Action Store (Unit {0})
forget_by_subject_key subject_key db = elim (find_by_subject subject_key db) [
  | none ↦ pure tt db
  | some session ↦ modify (destroy_sessions (session.id ∷ [])) db
]

abbrev pub foreign : Option String → VisitorSession → Bool
foreign none s = false
foreign (some tenant_id) s = not (s.tenant_id == tenant_id)

unfoldable pub revoke_by_id : String → Option String → Action Store (String × String)
revoke_by_id session_id caller_tenant_id = do
  found ← gets (λ db. find (λ s. s.id == session_id) db.visitor_sessions)
  session ← or_throw found (not_found "Visitor session not found")
  throw_if (foreign caller_tenant_id session) (forbidden "Visitor belongs to a different tenant")
  modify (destroy_sessions (session.id ∷ []))
  pure (session.tenant_id, session.id)

abbrev pub new_url : Option String → Option String → Option String
new_url none old = old
new_url (some url) old = some url

abbrev pub seen : ℕ → Option String → VisitorSession → VisitorSession
seen now current_url s = record s {
  last_seen_at = now;
  status = VisitorStatus.active;
  current_url = new_url current_url s.current_url;
}

unfoldable pub heartbeat : ℕ → VisitorSession → Option String → Store → Store
heartbeat now session current_url db = record db {
  visitor_sessions = update (λ s. s.id == session.id) (seen now current_url) db.visitor_sessions;
}

unfoldable pub create_tracked :
    TextFunctions → ℕ → String → CreateTrackedParams → Action Store VisitorSession
create_tracked text now id params = do
  modify (λ db. record db { visitor_sessions = db.visitor_sessions ++ session ∷ [] })
  pure session
  where
    session : VisitorSession
    session = record {
      id = id;
      tenant_id = params.tenant_id;
      session_cookie_hash = params.subject_key;
      identity_token_sub = params.identity_token_sub;
      user_agent = params.user_agent;
      ip_address = truncate_ip text params.ip_address;
      country = coarsen_country text params.country;
      city = none;
      language = params.language;
      current_url = params.current_url;
      referrer = params.referrer;
      status = VisitorStatus.active;
      first_seen_at = now;
      last_seen_at = now;
    }

module _ (lib : CookieFunctions) (env : SessionEnv) where
  -- The cookie and the subject key of a new visitor with a random id.
  abbrev pub mint_handle : String → String × String
  mint_handle session_id = (
    mint_visitor_cookie lib env.cookie_secret session_id,
    hash_session_id lib env.cookie_secret session_id,
  )

  unfoldable pub subject_key_of : String → Action Store String
  subject_key_of cookie_value db = elim (verify_visitor_cookie lib env.cookie_secret cookie_value) [
    | ok session_id ↦ pure (hash_session_id lib env.cookie_secret session_id) db
    | err e ↦ throw e db
  ]

  abbrev pub is_expired : ℕ → VisitorSession → Bool
  is_expired now session =
      ltb (session.first_seen_at + env.absolute_ttl_hours * ms_per_hour) now
      || ltb (session.last_seen_at + env.idle_ttl_hours * ms_per_hour) now

  unfoldable pub find_by_cookie : ℕ → String → Action Store VisitorSession
  unfolding subject_key_of
  find_by_cookie now cookie_value = do
    subject_key ← subject_key_of cookie_value
    found ← gets (find_by_subject subject_key)
    session ← or_throw found (unauthorized "Visitor session not found")
    throw_if (is_expired now session) (unauthorized "Visitor session expired")
    pure session

  unfoldable pub forget_by_cookie : String → Action Store (Unit {0})
  unfolding subject_key_of
  forget_by_cookie cookie_value = do
    subject_key ← subject_key_of cookie_value
    forget_by_subject_key subject_key
