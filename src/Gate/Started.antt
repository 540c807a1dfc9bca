-- ===== src/Gate/Started.antt =====
-- api/src/routes/visitor.ts: what a page load makes possible for the requests that follow it.
use livechat.ApiError.{Result, ok, err, ApiError}
use livechat.Prelude.{
  String, ◌≡◌, refl, sym, ap, subst, ◌∙◌, inl, inr, Bool, true, false, Option, none, some, List,
  arith, Option-cases,
}
use livechat.Prelude.Action.{Result-cases, ok_injective, pure, gets, bind_ok, ◌>>=◌}
use livechat.Shared.{is_granted}
use livechat.Models.{Tenant, VisitorSession, Store}
use livechat.Visitor.Cookie.{verify_visitor_cookie, hash_session_id}
use livechat.Visitor.Session.{
  find_by_subject, create_tracked, verify_identity_token, subject_key_of,
}
use livechat.Consent.Policy.{EffectiveConsentState}
use livechat.Consent.Records.{ConsentStore}
use livechat.Consent.Service.{DecideAndRecordParams, decide_and_record}
use livechat.Request.{
  Request, ResolvedSubject, CookieOptions, read_visitor_session_value, resolve_subject,
  resolve_active_tenant, resolve_geo, detect_gpc,
}
use livechat.Request.Csrf.{csrf_header, compute_csrf_token, csrf_protection, csrf_protection_iff}
use livechat.Request.Answered.{resolve_subject-IsCookieOf, resolve_subject-again}
use livechat.Gate.{
  Deps, Fresh, InitInput, InitResult, keyed, consent_state, on_tables, id_of, decided, page_load,
  init_result, gate, ensure_found, refreshed, tracked, ensure_session_for_init, run_session_init,
  get_or_create_visitor_for_chat, found_or, create_for_chat, anonymous,
}
use livechat.Gate.Decided.{HasDecision, decided-HasDecision}

module _ (deps : Deps) (fresh : Fresh) (req : Request) where
  ensure_session_for_init-ok :
      (tenant_id subject_key : String) (granted : Bool) (sub country : Option String)
      (body : InitInput) (db : Store)
      → (session : Option VisitorSession) × (after : Store) × (ensure_session_for_init deps fresh
            req tenant_id subject_key granted sub country body db
          ≡ (ok session, after))
  unfolding ensure_session_for_init ensure_found refreshed tracked create_tracked
  ensure_session_for_init-ok tenant_id subject_key false sub country body db = (none, db, refl)
  ensure_session_for_init-ok tenant_id subject_key true sub country body db =
      elim (Option-cases (find_by_subject subject_key db)) [
        | inl new ↦ rw new (_, _, refl)
        | inr (s, found) ↦ rw found (_, _, refl)
      ]

  pub gate-made :
      (body : InitInput) (tenant : Tenant) (sub : Option String) (subject : ResolvedSubject)
      (db : ConsentStore)
      → (session : Option VisitorSession) × (state : EffectiveConsentState)
        × (before : ConsentStore) × (params : DecideAndRecordParams) × (params.subject_key
            ≡ subject.subject_key)
        × (gate deps fresh req body tenant sub subject db ≡ (
          ok (
            init_result deps fresh req tenant.id (id_of session) subject.cookie_value state,
            subject.set_cookie,
          ),
          (decided deps fresh req params before).1,
        ))
  unfolding gate
  gate-made body tenant sub subject db =
      let geo = resolve_geo deps.geo deps.geo_env req in
      let opt_out = detect_gpc req body.gpc in
      let granted =
        is_granted (consent_state deps subject.subject_key geo opt_out db).purposes.presence in
      let (session, tables, made) =
        ensure_session_for_init-ok tenant.id subject.subject_key granted sub geo.country body
          db.tables in
      let before : ConsentStore = record db { tables = tables } in
      let params =
        page_load deps fresh req tenant.id subject.subject_key (id_of session) geo opt_out in
      (
        session,
        (decide_and_record deps.geo.to_upper_case (keyed deps) fresh.now fresh.record_id params
            before).0.1,
        before,
        params,
        refl,
        bind_ok
            (on_tables (
              ensure_session_for_init deps fresh req tenant.id subject.subject_key granted sub
                geo.country body))
            (λ session.
              decided deps fresh req
                (page_load deps fresh req tenant.id subject.subject_key (id_of session) geo opt_out)
              >>= λ made. pure (
                init_result deps fresh req tenant.id (id_of session) subject.cookie_value made.1,
                subject.set_cookie,
              ))
            db (ap (λ r. (r.0, record db { tables = r.1 })) made),
      )

  abbrev pub resolved : Result ResolvedSubject
  resolved =
      resolve_subject deps.cookie deps.session_env.cookie_secret deps.production fresh.handle_id req

  -- What an answered page load says of its subject.
  abbrev pub IsAnswerFor :
      ResolvedSubject → InitResult × Option CookieOptions → ConsentStore → Type 0
  IsAnswerFor subject made after =
      (made.0.session_token ≡ subject.cookie_value)
      × (made.0.csrf_token
          ≡ compute_csrf_token deps.cookie deps.session_env.cookie_secret subject.cookie_value)
      × HasDecision subject.subject_key after

  gate-IsAnswerFor :
      (body : InitInput) (tenant : Tenant) (sub : Option String) (subject : ResolvedSubject)
      (db : ConsentStore) (made : InitResult × Option CookieOptions)
      → (gate deps fresh req body tenant sub subject db).0 ≡ ok made
      → IsAnswerFor subject made (gate deps fresh req body tenant sub subject db).1
  gate-IsAnswerFor body tenant sub subject db made e =
      let (session, state, before, params, own, step) = gate-made body tenant sub subject db in
      let answer = ok_injective (sym (ap (λ r. r.0) step) ∙ e) in
      (
        sym (ap (λ m. m.0.session_token) answer),
        sym (ap (λ m. m.0.csrf_token) answer),
        subst (λ r. HasDecision subject.subject_key r.1) (sym step)
            (subst (λ k. HasDecision k (decided deps fresh req params before).1) own
              (decided-HasDecision deps fresh req params before)),
      )

  run_session_init-IsAnswerFor :
      (tenants : List Tenant) (body : InitInput) (db : ConsentStore)
      (made : InitResult × Option CookieOptions)
      → (run_session_init deps fresh req tenants body db).0 ≡ ok made
      → (subject : ResolvedSubject) × (resolved ≡ ok subject)
        × IsAnswerFor subject made (run_session_init deps fresh req tenants body db).1
  unfolding run_session_init
  run_session_init-IsAnswerFor tenants body db made =
      elim (Result-cases (resolve_active_tenant body.tenant_key tenants)) [
        | inl (x, unknown) ↦ rw unknown (λ e. absurd (refused e))
        | inr (tenant, known) ↦
            elim (Result-cases
              (verify_identity_token deps.jwt_verify body.identity_token tenant.embed_secret)) [
                | inl (x, forged) ↦ rw (known, forged) (λ e. absurd (refused e))
                | inr (sub, signed) ↦ elim (Result-cases resolved) [
                  | inl (x, stranger) ↦ rw (known, signed, stranger) (λ e. absurd (refused e))
                  | inr (subject, presented) ↦
                      rw (known, signed, presented)
                        (λ e. (subject, refl, gate-IsAnswerFor body tenant sub subject db made e))
                ]
              ]
      ]
    where
      refused : {x : ApiError} → ¬ (err x ≡ ok made)
      refused e = cc

  pub subject_key_of-ok :
      (cookie session_id : String) (db : Store)
      → verify_visitor_cookie deps.cookie deps.session_env.cookie_secret cookie ≡ ok session_id
      → subject_key_of deps.cookie deps.session_env cookie db
        ≡ (ok (hash_session_id deps.cookie deps.session_env.cookie_secret session_id), db)
  unfolding subject_key_of
  subject_key_of-ok cookie session_id db valid = ground arith

  -- The lookup, and the session that is made when there is none.
  found_or-ok :
      (subject_key : String) (db : ConsentStore)
      → HasDecision subject_key db
      → (visitor : VisitorSession) × ((found_or deps fresh req
            (create_for_chat deps fresh req subject_key)
            (find_by_subject subject_key db.tables)
            db).0
          ≡ ok visitor)
  unfolding found_or create_for_chat anonymous create_tracked
  found_or-ok subject_key db (r, last) =
      elim (Option-cases (find_by_subject subject_key db.tables)) [
        | inl gone ↦ rw (gone, last) (_, refl)
        | inr (s, found) ↦ rw found (s, refl)
      ]

  get_or_create_visitor_for_chat-ok :
      (cookie session_id : String) (db : ConsentStore)
      → verify_visitor_cookie deps.cookie deps.session_env.cookie_secret cookie ≡ ok session_id
      → HasDecision (hash_session_id deps.cookie deps.session_env.cookie_secret session_id) db
      → (visitor : VisitorSession) × ((get_or_create_visitor_for_chat deps fresh req cookie db).0
          ≡ ok visitor)
  unfolding get_or_create_visitor_for_chat
  get_or_create_visitor_for_chat-ok cookie session_id db valid decision =
      let key = hash_session_id deps.cookie deps.session_env.cookie_secret session_id in
      let (visitor, made) = found_or-ok key db decision in
      (
        visitor,
        ap (λ r. r.0)
              (bind_ok (on_tables (subject_key_of deps.cookie deps.session_env cookie))
                (λ k. gets (λ d. find_by_subject k d.tables) >>= λ existing.
                  found_or deps fresh req (create_for_chat deps fresh req k) existing)
                db
                (ap (λ r. (r.0, record db { tables = r.1 }))
                  (subject_key_of-ok cookie session_id db.tables valid)))
            ∙ made,
      )

  pub run_session_init-known :
      (tenants : List Tenant) (body : InitInput) (db : ConsentStore) (tenant : Tenant)
      (sub : Option String) (subject : ResolvedSubject)
      → resolve_active_tenant body.tenant_key tenants ≡ ok tenant
      → verify_identity_token deps.jwt_verify body.identity_token tenant.embed_secret ≡ ok sub
      → resolved ≡ ok subject
      → run_session_init deps fresh req tenants body db
        ≡ gate deps fresh req body tenant sub subject db
  unfolding run_session_init
  run_session_init-known tenants body db tenant sub subject known signed presented =
      rw (known, signed, presented) refl

-- A page load is answered with what the visitor needs next, tracked or not: a later request that
-- presents the answered session and token is of the same visitor, passes the CSRF guard and, on the
-- tables that the page load left, has a visitor session to begin a chat with.
pub run_session_init-continues :
    (deps : Deps) (fresh next : Fresh) (req later : Request) (tenants : List Tenant)
    (body : InitInput) (db : ConsentStore) (made : InitResult × Option CookieOptions)
    → deps.cookie.has_dot fresh.handle_id ≡ false
    → (run_session_init deps fresh req tenants body db).0 ≡ ok made
    → read_visitor_session_value later ≡ some made.0.session_token
    → later.header csrf_header ≡ some made.0.csrf_token
    → ((subject : ResolvedSubject) × (resolved deps fresh req ≡ ok subject)
        × (resolved deps next later ≡ ok (record subject { set_cookie = none })))
      × (csrf_protection deps.cookie deps.session_env.cookie_secret later ≡ ok tt)
      × ((visitor : VisitorSession) × ((get_or_create_visitor_for_chat deps next later
              made.0.session_token
              (run_session_init deps fresh req tenants body db).1).0
            ≡ ok visitor))
run_session_init-continues deps fresh next req later tenants body db made plain e presented token =
    let lib = deps.cookie in
    let secret = deps.session_env.cookie_secret in
    let (subject, own, (cookie_value, csrf, decision)) =
      run_session_init-IsAnswerFor deps fresh req tenants body db made e in
    let (session_id, valid, key) =
      resolve_subject-IsCookieOf lib secret deps.production fresh.handle_id req subject plain own in
    (
      (
        subject,
        own,
        resolve_subject-again lib secret deps.production next.handle_id later subject
            (session_id, valid, key) (presented ∙ ap some cookie_value),
      ),
      (csrf_protection_iff lib secret later made.0.session_token presented).1
          (token ∙ ap some (csrf ∙ ap (compute_csrf_token lib secret) (sym cookie_value))),
      get_or_create_visitor_for_chat-ok deps next later made.0.session_token session_id _
          (ap (verify_visitor_cookie lib secret) cookie_value ∙ valid)
          (subst (λ k. HasDecision k (run_session_init deps fresh req tenants body db).1) key
            decision),
    )
