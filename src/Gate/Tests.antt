-- ===== src/Gate/Tests.antt =====
-- The consent gate at concrete inputs, and its theorems applied to them.
use livechat.ApiError.{ok}
use livechat.Prelude.{
  String, ◌≡◌, refl, ap, ◌∙◌, true, Option, none, some, List, [], ◌∷◌, ◌==◌, find, All,
  if◌then◌else◌,
}
use livechat.Shared.{denied, withdrawn, VisitorStatus}
use livechat.Models.{Tenant, TenantStatus, VisitorSession}
use livechat.Visitor.Tests.{signing, known, env, cookie, signed}
use livechat.Visitor.Cookie.{mint_visitor_cookie, verify_visitor_cookie}
use livechat.Visitor.Session.{has_cookie_hash, find_by_subject, verify_identity_token}
use livechat.Consent.Records.{ConsentStore}
use livechat.Consent.Policy.{ExplicitConsent}
use livechat.Consent.Service.{DecideAndRecordParams}
use livechat.Request.{
  Request, ResolvedSubject, CookieOptions, read_visitor_session_value, resolve_active_tenant,
}
use livechat.Request.Answered.{resolve_subject-again}
use livechat.Request.Csrf.{csrf_header, compute_csrf_token, csrf_protection}
use livechat.Gate.{
  Deps, Fresh, InitInput, InitResult, id_of, init_result, run_session_init,
  get_or_create_visitor_for_chat,
}
use livechat.Gate.Banner.{BannerBody, banner_params, post_withdraw, record_banner_decision}
use livechat.Gate.Loads.{PageLoad, IsBy, load_all, AllUntracked}
use livechat.Gate.Withdrawn.{state_after-denied, post_withdraw-untracked}
use livechat.Gate.Enforced.{state_after, record_banner_decision-known, record_banner_decision-gone}
use livechat.Gate.Again.{
  key_of, get_or_create_visitor_for_chat-found, get_or_create_visitor_for_chat-again,
}
use livechat.Gate.Started.{resolved, gate-made, run_session_init-known, run_session_init-continues}

abbrev pub deps : Deps
deps = record {
  cookie = signing;
  text = known;
  geo = record { is_two_letters = λ s. true; to_upper_case = λ s. s };
  jwt_verify = λ token secret. none;
  session_env = env;
  geo_env = record { country_header = "cf-ipcountry"; region_header = "" };
  production = true;
}

abbrev acme : Tenant
acme = record {
  id = "t1";
  name = "Acme";
  slug = "acme";
  domain = none;
  status = TenantStatus.active;
  expires_at = none;
  settings = none;
  embed_secret = "embed";
  allowed_origins = none;
  deleted_at = none;
}

abbrev pub fresh : Fresh
fresh = record { now = 9; handle_id = "id"; session_id = "v9"; record_id = "r9" }

-- A browser in the United States that presents the cookie.
abbrev pub browser : Request
browser = record {
  header = λ name.
      if name == "x-visitor-session"
      then some cookie
      else if name == "cf-ipcountry"
      then some "US"
      else if name == "x-xsrf-token"
      then some "sig"
      else none;
  cookies = λ name. none;
  ip = none;
}

abbrev pub ann : VisitorSession
ann = record {
  id = "v1";
  tenant_id = "t1";
  session_cookie_hash = "sig";
  identity_token_sub = none;
  user_agent = none;
  ip_address = none;
  country = none;
  city = none;
  language = none;
  current_url = none;
  referrer = none;
  status = VisitorStatus.active;
  first_seen_at = 1;
  last_seen_at = 5;
}

abbrev pub db : ConsentStore
db = record {
  tables = record { visitor_sessions = ann ∷ []; chats = []; messages = [] };
  consent_records = [];
  audit_logs = [];
}

abbrev init : InitInput
init = record {
  tenant_key = "acme";
  identity_token = none;
  current_url = none;
  referrer = none;
  language = none;
  gpc = none;
}

presented : read_visitor_session_value browser ≡ some cookie
unfolding read_visitor_session_value mint_visitor_cookie
presented = refl

abbrev subject : ResolvedSubject
subject = record { subject_key = "sig"; cookie_value = cookie; set_cookie = none }

same_subject : resolved deps fresh browser ≡ ok subject
same_subject =
    resolve_subject-again signing "secret" true "id" browser subject ("id", signed, refl) presented

IsBy-ann : IsBy deps "sig" fresh browser
IsBy-ann = (subject, same_subject, refl)

only_ann :
    (s : VisitorSession)
    → find_by_subject "sig" db.tables ≡ some s
    → All (λ x. has_cookie_hash "sig" x ≡ true → x.id ≡ s.id) db.tables.visitor_sessions
unfolding find_by_subject find
only_ann s e = ((λ _. ap (λ o. id_in o) e), tt)
  where
    id_in : Option VisitorSession → String
    id_in none = ""
    id_in (some x) = x.id

abbrev withdraw : BannerBody
withdraw = record { tenant_key = "acme"; gpc = none }

known_tenant : resolve_active_tenant "acme" (acme ∷ []) ≡ ok acme
unfolding resolve_active_tenant find
known_tenant = refl

abbrev refusal : ExplicitConsent
refusal = record { functional = none; presence = some denied; analytics = some denied }

abbrev withdrawal : DecideAndRecordParams
withdrawal = banner_params deps fresh browser withdraw "t1" "sig" refusal (some withdrawn)

abbrev denial : DecideAndRecordParams
denial = banner_params deps fresh browser withdraw "t1" "sig" refusal none

withdrawal_answered :
    (post_withdraw deps fresh browser (acme ∷ []) withdraw db).0
    ≡ ok (state_after deps fresh browser withdrawal db, none)
unfolding post_withdraw
withdrawal_answered =
    ap (λ r. r.0)
      (record_banner_decision-known deps fresh browser (acme ∷ []) withdraw refusal (some withdrawn)
        acme subject db known_tenant same_subject)

denial_answered :
    (record_banner_decision deps fresh browser (acme ∷ []) withdraw refusal none db).0
    ≡ ok (state_after deps fresh browser denial db, none)
denial_answered =
    ap (λ r. r.0)
      (record_banner_decision-known deps fresh browser (acme ∷ []) withdraw refusal none acme
        subject db known_tenant same_subject)

abbrev loads : List PageLoad
loads = record { fresh = fresh; req = browser; tenants = acme ∷ []; body = init } ∷ []

post_withdraw-untracked_example :
    (let after = (post_withdraw deps fresh browser (acme ∷ []) withdraw db).1 in
      (find_by_subject "sig" after.tables ≡ none)
      × ((load_all deps "sig" loads after).tables ≡ after.tables)
      × AllUntracked deps "sig" loads after)
post_withdraw-untracked_example =
    post_withdraw-untracked deps fresh browser "sig" (acme ∷ []) withdraw loads db
      (state_after deps fresh browser withdrawal db, none) IsBy-ann only_ann tt withdrawal_answered
      (IsBy-ann, tt)

record_banner_decision-gone_example :
    find_by_subject "sig"
      (record_banner_decision deps fresh browser (acme ∷ []) withdraw refusal none db).1.tables
    ≡ none
record_banner_decision-gone_example =
    record_banner_decision-gone deps fresh browser "sig" (acme ∷ []) withdraw refusal none db
      (state_after deps fresh browser denial db, none) IsBy-ann only_ann denial_answered
      (state_after-denied deps fresh browser denial db refl)

abbrev session_made : InitResult × Option CookieOptions
session_made =
    let (session, state, before, params, own, step) =
      gate-made deps fresh browser init acme none subject db in
    (init_result deps fresh browser "t1" (id_of session) cookie state, none)

no_token : verify_identity_token deps.jwt_verify none "embed" ≡ ok none
unfolding verify_identity_token
no_token = refl

session_answered : (run_session_init deps fresh browser (acme ∷ []) init db).0 ≡ ok session_made
session_answered =
    let (session, state, before, params, own, step) =
      gate-made deps fresh browser init acme none subject db in
    ap (λ r. r.0)
      (run_session_init-known deps fresh browser (acme ∷ []) init db acme none subject known_tenant
          no_token same_subject
        ∙ step)

token_sent : browser.header csrf_header ≡ some session_made.0.csrf_token
unfolding compute_csrf_token
token_sent = refl

run_session_init-continues_example :
    ((s : ResolvedSubject) × (resolved deps fresh browser ≡ ok s)
      × (resolved deps fresh browser ≡ ok (record s { set_cookie = none })))
    × (csrf_protection signing "secret" browser ≡ ok tt)
    × ((visitor : VisitorSession) × ((get_or_create_visitor_for_chat deps fresh browser cookie
            (run_session_init deps fresh browser (acme ∷ []) init db).1).0
          ≡ ok visitor))
run_session_init-continues_example =
    run_session_init-continues deps fresh fresh browser browser (acme ∷ []) init db session_made
      refl session_answered presented token_sent

found_ann : find_by_subject "sig" db.tables ≡ some ann
unfolding find_by_subject find
found_ann = refl

begun : (get_or_create_visitor_for_chat deps fresh browser cookie db).0 ≡ ok ann
begun =
    ap (λ r. r.0)
      (get_or_create_visitor_for_chat-found deps fresh browser cookie "id" db signed found_ann)

get_or_create_visitor_for_chat-again_example :
    (session_id : String) × (verify_visitor_cookie signing "secret" cookie ≡ ok session_id)
    × ("sig" ≡ key_of deps session_id)
    × (get_or_create_visitor_for_chat deps fresh browser cookie
          (get_or_create_visitor_for_chat deps fresh browser cookie db).1
        ≡ (ok ann, (get_or_create_visitor_for_chat deps fresh browser cookie db).1))
get_or_create_visitor_for_chat-again_example =
    get_or_create_visitor_for_chat-again deps fresh fresh browser browser cookie db ann begun
