-- ===== src/Gate/Banner.antt =====
-- api/src/routes/privacy.ts: the visitor's consent routes and the data-subject request.
use livechat.ApiError.{Result}
use livechat.Prelude.{String, Bool, false, not, Option, none, some, List, if◌then◌else◌}
use livechat.Prelude.Action.{Action, pure, gets, of_result, ◌>>=◌, ◌>>◌}
use livechat.Shared.{PurposeDecision, denied, LegalBasis, withdrawn, banner, is_granted}
use livechat.Models.{Tenant}
use livechat.Consent.Policy.{ExplicitConsent, EffectiveConsentState}
use livechat.Consent.Records.{ConsentStore, RetentionStrategy, DataRequestType}
use livechat.Consent.Service.{DecideAndRecordParams}
use livechat.Consent.Service.Requests.{DataRequestResult, fulfil_data_request}
use livechat.Request.{
  Request, ResolvedSubject, CookieOptions, detect_gpc, resolve_subject, resolve_geo,
  resolve_active_tenant,
}
use livechat.Gate.{Deps, Fresh, forget_subject, consent_state, decided}

pub record BannerBody : Type 0 where
  pub tenant_key : String
  pub gpc : Option Bool

pub record RecordConsentInput : Type 0 where
  pub banner : BannerBody
  pub presence : Option PurposeDecision
  pub analytics : Option PurposeDecision

module _ (deps : Deps) (fresh : Fresh) (req : Request) where
  abbrev pub banner_params :
      BannerBody → String → String → ExplicitConsent → Option LegalBasis → DecideAndRecordParams
  banner_params body tenant_id subject_key explicit_consent legal_basis_override =
      let geo = resolve_geo deps.geo deps.geo_env req in
      record {
        tenant_id = tenant_id;
        subject_key = subject_key;
        visitor_session_id = none;
        country = geo.country;
        region = geo.region;
        gpc = detect_gpc req body.gpc;
        source = banner;
        ip = req.ip;
        user_agent = req.header "user-agent";
        explicit_consent = some explicit_consent;
        legal_basis_override = legal_basis_override;
        skip_if_unchanged = false;
      }

  -- The decision and its enforcement.
  unfoldable pub enforce : DecideAndRecordParams → Action ConsentStore EffectiveConsentState
  enforce params = do
    (r, state) ← decided deps fresh req params
    if not (is_granted state.purposes.presence) then forget_subject params.subject_key else pure tt
    pure state

  abbrev pub subject : Result ResolvedSubject
  subject =
      resolve_subject deps.cookie deps.session_env.cookie_secret deps.production fresh.handle_id req

  unfoldable pub record_banner_decision :
      List Tenant
      → BannerBody
      → ExplicitConsent
      → Option LegalBasis
      → Action ConsentStore (EffectiveConsentState × Option CookieOptions)
  unfolding enforce
  record_banner_decision tenants body explicit_consent legal_basis_override = do
    tenant ← of_result (resolve_active_tenant body.tenant_key tenants)
    who ← of_result subject
    state ←
        enforce (banner_params body tenant.id who.subject_key explicit_consent legal_basis_override)
    pure (state, who.set_cookie)

  -- GET /consent
  unfoldable pub get_consent :
      Option Bool → Action ConsentStore (EffectiveConsentState × Option CookieOptions)
  get_consent client_flag = do
    who ← of_result subject
    state ← gets (
        consent_state deps who.subject_key (resolve_geo deps.geo deps.geo_env req)
          (detect_gpc req client_flag))
    pure (state, who.set_cookie)

  -- POST /consent
  unfoldable pub post_consent :
      List Tenant
      → RecordConsentInput
      → Action ConsentStore (EffectiveConsentState × Option CookieOptions)
  unfolding record_banner_decision
  post_consent tenants body =
      record_banner_decision tenants body.banner
        (record { functional = none; presence = body.presence; analytics = body.analytics }) none

  -- POST /consent/withdraw
  unfoldable pub post_withdraw :
      List Tenant → BannerBody → Action ConsentStore (EffectiveConsentState × Option CookieOptions)
  unfolding record_banner_decision
  post_withdraw tenants body =
      record_banner_decision tenants body
        (record { functional = none; presence = some denied; analytics = some denied })
        (some withdrawn)

  -- POST /data-request
  unfoldable pub post_data_request :
      Option RetentionStrategy
      → List Tenant
      → String
      → DataRequestType
      → Action ConsentStore (DataRequestResult × Option CookieOptions)
  post_data_request strategy tenants tenant_key request_type = do
    tenant ← of_result (resolve_active_tenant tenant_key tenants)
    who ← of_result subject
    result ← fulfilled tenant.id who.subject_key
    pure (result, who.set_cookie)
    where
      fulfilled : String → String → Action ConsentStore DataRequestResult
      fulfilled tenant_id subject_key db =
          let (result, after) =
            fulfil_data_request
              (record {
                tenant_id = tenant_id;
                subject_key = subject_key;
                request_type = request_type;
                strategy = strategy;
              })
              fresh.record_id db in
          pure result after
