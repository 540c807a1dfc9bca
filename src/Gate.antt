-- ===== src/Gate.antt =====
-- api/src/routes/visitor.ts: what stands between a visitor and the tables, `ensureSessionForInit`,
-- `getOrCreateVisitorForChat` and `runSessionInit`. The tenants, which these routes only read, the
-- clock and the random ids are arguments.
pub mod Banner
pub mod Untracked
pub mod Enforced
pub mod Withdrawn
pub mod Decided
pub mod Loads
pub mod Started
pub mod Again
pub mod Chats
pub mod Tests
use livechat.ApiError.{unauthorized}
use livechat.Prelude.{
  ℕ, String, Bool, true, false, Option, none, some, List, [], ◌∷◌, map, if◌then◌else◌,
}
use livechat.Prelude.Action.{Action, pure, gets, or_throw, of_result, modify, ◌>>=◌, ◌>>◌}
use livechat.Shared.{Jurisdiction, PurposeState, ConsentSource, gpc, default, is_granted}
use livechat.Models.{Tenant, VisitorSession, Store}
use livechat.Visitor.Cookie.{CookieFunctions}
use livechat.Visitor.Minimize.{TextFunctions}
use livechat.Visitor.Session.{
  SessionEnv, find_by_subject, heartbeat, seen, create_tracked, subject_key_of,
  forget_by_subject_key, verify_identity_token,
}
use livechat.Consent.Policy.{EffectiveConsentState}
use livechat.Consent.Records.{ConsentRecord, ConsentStore, unlink}
use livechat.Consent.Service.{DecideAndRecordParams, resolve_state, decide_and_record, latest_for}
use livechat.Request.{
  Request, ResolvedSubject, CookieOptions, GeoEnv, ResolvedGeo, GeoFunctions, detect_gpc,
  resolve_subject, resolve_geo, resolve_active_tenant,
}
use livechat.Request.Csrf.{compute_csrf_token}

-- The libraries and the environment of the routes.
pub record Deps : Type 0 where
  pub cookie : CookieFunctions
  pub text : TextFunctions
  pub geo : GeoFunctions
  pub jwt_verify : String → String → Option (Option String)
  pub session_env : SessionEnv
  pub geo_env : GeoEnv
  pub production : Bool

-- The clock and the random ids of one request.
pub record Fresh : Type 0 where
  pub now : ℕ
  pub handle_id : String
  pub session_id : String
  pub record_id : String

pub record InitInput : Type 0 where
  pub tenant_key : String
  pub identity_token : Option String
  pub current_url : Option String
  pub referrer : Option String
  pub language : Option String
  pub gpc : Option Bool

pub record InitResult : Type 0 where
  pub session_id : Option String
  pub tenant_id : String
  pub csrf_token : String
  pub session_token : String
  pub jurisdiction : Jurisdiction
  pub gpc : Bool
  pub tracking : PurposeState

-- A call on the tables that the consent service shares with the others.
abbrev pub on_tables : {A : Type 0} → Action Store A → Action ConsentStore A
on_tables m db = let (r, tables) = m db.tables in (r, record db { tables = tables })

abbrev pub id_of : Option VisitorSession → Option String
id_of none = none
id_of (some session) = some session.id

abbrev pub ids_of : Option VisitorSession → List String
ids_of none = []
ids_of (some session) = session.id ∷ []

-- `forgetBySubjectKey`, with what the delete does to the consent records.
unfoldable pub forget_subject : String → Action ConsentStore (Unit {0})
forget_subject subject_key db =
    let gone = ids_of (find_by_subject subject_key db.tables) in
    let (r, tables) = forget_by_subject_key subject_key db.tables in
    (r, record db { tables = tables; consent_records = map (unlink gone) db.consent_records })

module _ (deps : Deps) where
  -- `createHmac('sha256', deps.env.COOKIE_SECRET)`
  abbrev pub keyed : String → String
  keyed value = deps.cookie.hmac value deps.session_env.cookie_secret

  -- `deps.consent` with its libraries.
  abbrev pub consent_state : String → ResolvedGeo → Bool → ConsentStore → EffectiveConsentState
  consent_state subject_key geo opt_out =
      resolve_state deps.geo.to_upper_case keyed subject_key geo.country geo.region opt_out

module _ (deps : Deps) (fresh : Fresh) (req : Request) where
  abbrev pub decided :
      DecideAndRecordParams → Action ConsentStore (ConsentRecord × EffectiveConsentState)
  decided params db =
      let (made, after) =
        decide_and_record deps.geo.to_upper_case (keyed deps) fresh.now fresh.record_id params db in
      pure made after

  refreshed : Option String → VisitorSession → Action Store VisitorSession
  refreshed current_url session = do
    modify (heartbeat fresh.now session current_url)
    pure (seen fresh.now current_url session)

  tracked :
      String → String → Option String → Option String → InitInput → Action Store VisitorSession
  tracked tenant_id subject_key identity_token_sub country body =
      create_tracked deps.text fresh.now fresh.session_id (record {
        tenant_id = tenant_id;
        subject_key = subject_key;
        identity_token_sub = identity_token_sub;
        user_agent = req.header "user-agent";
        ip_address = req.ip;
        language = body.language;
        current_url = body.current_url;
        referrer = body.referrer;
        country = country;
        city = none;
      })

  ensure_found :
      Action Store VisitorSession
      → Option String
      → Option VisitorSession
      → Action Store VisitorSession
  unfolding refreshed
  ensure_found create current_url none = create
  ensure_found create current_url (some session) = refreshed current_url session

  unfoldable pub ensure_session_for_init :
      String
      → String
      → Bool
      → Option String
      → Option String
      → InitInput
      → Action Store (Option VisitorSession)
  unfolding ensure_found tracked
  ensure_session_for_init tenant_id subject_key presence_granted identity_token_sub country body =
      if presence_granted
      then (do
        existing ← gets (find_by_subject subject_key)
        session ←
            ensure_found (tracked tenant_id subject_key identity_token_sub country body)
              body.current_url existing
        pure (some session))
      else pure none

  anonymous : String → String → Action Store VisitorSession
  anonymous tenant_id subject_key = create_tracked deps.text fresh.now fresh.session_id (record {
    tenant_id = tenant_id;
    subject_key = subject_key;
    identity_token_sub = none;
    user_agent = req.header "user-agent";
    ip_address = req.ip;
    language = none;
    current_url = none;
    referrer = none;
    country = none;
    city = none;
  })

  create_for_chat : String → Action ConsentStore VisitorSession
  unfolding anonymous
  create_for_chat subject_key = do
    latest ← gets (λ db. latest_for subject_key db.consent_records)
    decision ← or_throw latest (unauthorized "Visitor session required")
    on_tables (anonymous decision.tenant_id subject_key)

  found_or :
      Action ConsentStore VisitorSession
      → Option VisitorSession
      → Action ConsentStore VisitorSession
  found_or create none = create
  found_or create (some session) = pure session

  unfoldable pub get_or_create_visitor_for_chat : String → Action ConsentStore VisitorSession
  unfolding create_for_chat found_or
  get_or_create_visitor_for_chat cookie = do
    subject_key ← on_tables (subject_key_of deps.cookie deps.session_env cookie)
    existing ← gets (λ db. find_by_subject subject_key db.tables)
    found_or (create_for_chat subject_key) existing

  -- The decision that a page load records.
  abbrev pub page_load :
      String → String → Option String → ResolvedGeo → Bool → DecideAndRecordParams
  page_load tenant_id subject_key session_id geo opt_out = record {
    tenant_id = tenant_id;
    subject_key = subject_key;
    visitor_session_id = session_id;
    country = geo.country;
    region = geo.region;
    gpc = opt_out;
    source = if opt_out then ConsentSource.gpc else ConsentSource.default;
    ip = req.ip;
    user_agent = req.header "user-agent";
    explicit_consent = none;
    legal_basis_override = none;
    skip_if_unchanged = true;
  }

  abbrev pub init_result : String → Option String → String → EffectiveConsentState → InitResult
  init_result tenant_id session_id cookie_value state = record {
    session_id = session_id;
    tenant_id = tenant_id;
    csrf_token = compute_csrf_token deps.cookie deps.session_env.cookie_secret cookie_value;
    session_token = cookie_value;
    jurisdiction = state.jurisdiction;
    gpc = state.gpc;
    tracking = state.purposes;
  }

  -- `runSessionInit` once the tenant, the identity and the subject are known.
  pub gate :
      InitInput
      → Tenant
      → Option String
      → ResolvedSubject
      → Action ConsentStore (InitResult × Option CookieOptions)
  gate body tenant identity_token_sub subject = do
    decision ← gets (consent_state deps subject.subject_key geo opt_out)
    session ← on_tables (
        ensure_session_for_init tenant.id subject.subject_key
          (is_granted decision.purposes.presence) identity_token_sub geo.country body)
    (r, state) ← decided (page_load tenant.id subject.subject_key (id_of session) geo opt_out)
    pure (init_result tenant.id (id_of session) subject.cookie_value state, subject.set_cookie)
    where
      geo : ResolvedGeo
      geo = resolve_geo deps.geo deps.geo_env req

      opt_out : Bool
      opt_out = detect_gpc req body.gpc

  unfoldable pub run_session_init :
      List Tenant → InitInput → Action ConsentStore (InitResult × Option CookieOptions)
  unfolding gate
  run_session_init tenants body = do
    tenant ← of_result (resolve_active_tenant body.tenant_key tenants)
    identity_token_sub ←
        of_result (verify_identity_token deps.jwt_verify body.identity_token tenant.embed_secret)
    subject ← of_result (
        resolve_subject deps.cookie deps.session_env.cookie_secret deps.production fresh.handle_id
          req)
    gate body tenant identity_token_sub subject
