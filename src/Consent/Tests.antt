-- ===== src/Consent/Tests.antt =====
-- The consent policy and the consent service at concrete inputs, and their theorems applied there.
use livechat.Prelude.{
  String, ◌≡◌, ◌≢◌, refl, ◌↔◌, true, false, none, some, [], ◌∷◌, ◌==◌, if◌then◌else◌,
}
use livechat.Shared.{
  ConsentPurpose, granted, denied, eu, withdrawn, ConsentSource, banner, VisitorStatus,
}
use livechat.Models.{VisitorSession}
use livechat.Consent.Policy.{ExplicitConsent, decision, decide}
use livechat.Consent.Policy.Decision.{Permits, decide_iff}
use livechat.Consent.Records.{RetentionStrategy, DataRequestType, ConsentStore}
use livechat.Consent.Service.{
  DecideAndRecordParams, load_explicit_consent, explicit_of, resolve_state, decide_and_record,
}
use livechat.Consent.Service.Choices.{after_decision, load_explicit_consent-default}
use livechat.Consent.Service.Banner.{
  without_functional, load_explicit_consent-after, resolve_state-withdrawn,
}
use livechat.Consent.Service.Repeat.{decide_and_record-again}
use livechat.Consent.Service.Requests.{DataRequestParams, subject_data, fulfil_data_request}
use livechat.Consent.Service.Requests.Erasure.{
  Erased, fulfil_data_request-Erased, subject_data-erased,
}

abbrev accepted : ExplicitConsent
accepted = record { functional = none; presence = some granted; analytics = some denied }

-- A case conversion of the two letters that the examples use.
abbrev upper : String → String
upper s = if s == "us" then "US" else s

decide_iff_example :
    (decision (decide eu false accepted).purposes ConsentPurpose.presence ≡ granted)
    ↔ Permits eu false (some granted) ConsentPurpose.presence
decide_iff_example = decide_iff eu false accepted ConsentPurpose.presence

abbrev hmac : String → String
hmac s = s

abbrev ann : VisitorSession
ann = record {
  id = "v1";
  tenant_id = "acme";
  session_cookie_hash = "k1";
  identity_token_sub = none;
  user_agent = some "Firefox";
  ip_address = some "203.0.113.0";
  country = some "DE";
  city = none;
  language = none;
  current_url = some "/pricing";
  referrer = none;
  status = VisitorStatus.active;
  first_seen_at = 1;
  last_seen_at = 5;
}

abbrev bob : VisitorSession
bob = record ann { id = "v2"; session_cookie_hash = "k2" }

abbrev automatic : DecideAndRecordParams
automatic = record {
  tenant_id = "acme";
  subject_key = "k1";
  visitor_session_id = some "v1";
  country = some "us";
  region = none;
  gpc = false;
  source = ConsentSource.default;
  ip = none;
  user_agent = none;
  explicit_consent = none;
  legal_basis_override = none;
  skip_if_unchanged = true;
}

abbrev withdrawal : DecideAndRecordParams
withdrawal = record automatic {
  source = banner;
  explicit_consent =
      some (record { functional = none; presence = some denied; analytics = some denied });
  legal_basis_override = some withdrawn;
  skip_if_unchanged = false;
}

abbrev empty_db : ConsentStore
empty_db = record {
  tables = record { visitor_sessions = ann ∷ bob ∷ []; chats = []; messages = [] };
  consent_records = [];
  audit_logs = [];
}

abbrev loaded : ConsentStore
loaded = after_decision upper hmac 10 "r1" automatic empty_db

load_explicit_consent-default_example :
    load_explicit_consent "k1" loaded.consent_records ≡ load_explicit_consent "k1" []
load_explicit_consent-default_example =
    load_explicit_consent-default upper hmac 10 "r1" automatic empty_db "k1" refl

load_explicit_consent-after_example :
    (load_explicit_consent "k1"
        (after_decision upper hmac 20 "r2" withdrawal empty_db).consent_records
      ≡ without_functional (explicit_of upper hmac withdrawal empty_db))
    × ((subject_key : String)
        → subject_key ≢ "k1"
        → load_explicit_consent subject_key
            (after_decision upper hmac 20 "r2" withdrawal empty_db).consent_records
          ≡ load_explicit_consent subject_key [])
load_explicit_consent-after_example =
    load_explicit_consent-after upper hmac 20 "r2" withdrawal empty_db refl refl tt

resolve_state-withdrawn_example :
    ((resolve_state upper hmac "k1"
        (some "us")
        none
        false
        (after_decision upper hmac 20 "r2" withdrawal empty_db)).purposes.presence
      ≡ denied)
    × ((resolve_state upper hmac "k1"
          (some "us")
          none
          false
          (after_decision upper hmac 20 "r2" withdrawal empty_db)).purposes.analytics
        ≡ denied)
resolve_state-withdrawn_example =
    resolve_state-withdrawn upper hmac 20 "r2" withdrawal empty_db (some "us") none false refl refl
      refl tt

decide_and_record-again_example :
    decide_and_record upper hmac 30 "r3" automatic loaded
    ≡ decide_and_record upper hmac 10 "r1" automatic empty_db
decide_and_record-again_example =
    decide_and_record-again upper hmac automatic 10 30 "r1" "r3" empty_db refl refl tt

abbrev erasure : DataRequestParams
erasure = record {
  tenant_id = "acme";
  subject_key = "k1";
  request_type = DataRequestType.delete;
  strategy = some RetentionStrategy.delete;
}

fulfil_data_request-Erased_example :
    Erased erasure empty_db RetentionStrategy.delete (fulfil_data_request erasure "q1" empty_db).1
fulfil_data_request-Erased_example =
    fulfil_data_request-Erased erasure empty_db "q1" RetentionStrategy.delete refl refl

subject_data-erased_example :
    subject_data erasure (fulfil_data_request erasure "q1" empty_db).1
    ≡ record { visitor_sessions = []; chats = []; messages = []; consent_records = [] }
subject_data-erased_example = subject_data-erased erasure empty_db "q1" refl refl
