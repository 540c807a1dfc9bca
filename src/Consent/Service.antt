-- ===== src/Consent/Service.antt =====
-- api/src/services/consent-service.ts. The case conversion of the policy and the HMAC with the
-- cookie secret are parameters; a new id and the clock are arguments. A failed audit write is
-- swallowed by the source, so an entry is simply added here.
pub mod Banner
pub mod Choices
pub mod Repeat
pub mod Requests
pub mod Unlinked
use livechat.Prelude.{
  ℕ, String, Bool, true, false, not, ◌&&◌, Option, none, some, List, [], ◌∷◌, ◌++◌, ◌==◌, slice,
  filter, every, latest, same, if◌then◌else◌,
}
use livechat.Shared.{
  ConsentPurpose, PurposeDecision, Jurisdiction, LegalBasis, withdrawn, ConsentSource, PurposeState,
  is_banner, decision_eq, jurisdiction_eq, basis_eq, bool_eq,
}
use livechat.Consent.Policy.{
  rule_version, ExplicitConsent, no_consent, resolve_jurisdiction, decision, EffectiveConsentState,
  consent_purposes, decide,
}
use livechat.Consent.Records.{
  ConsentRecord, AuditEntry, decision_metadata, ConsentStore, record_audit,
}

pub record DecideAndRecordParams : Type 0 where
  pub tenant_id : String
  pub subject_key : String
  pub visitor_session_id : Option String
  pub country : Option String
  pub region : Option String
  pub gpc : Bool
  pub source : ConsentSource
  pub ip : Option String
  pub user_agent : Option String
  pub explicit_consent : Option ExplicitConsent
  pub legal_basis_override : Option LegalBasis
  pub skip_if_unchanged : Bool

-- `a ?? b`
abbrev pub or_else {ℓ} : {A : Type ℓ} → Option A → A → A
or_else none b = b
or_else (some a) b = a

-- `{ ...old, ...new }`, for one key.
abbrev pub spread : Option PurposeDecision → Option PurposeDecision → Option PurposeDecision
spread old none = old
spread old (some new) = some new

abbrev pub merge : ExplicitConsent → ExplicitConsent → ExplicitConsent
merge old new = record {
  functional = spread old.functional new.functional;
  presence = spread old.presence new.presence;
  analytics = spread old.analytics new.analytics;
}

abbrev pub of_subject : String → ConsentRecord → Bool
of_subject subject_key r = r.subject_key == subject_key

abbrev pub banner_of : String → ConsentRecord → Bool
banner_of subject_key r = of_subject subject_key r && is_banner r.source

-- The choices of the stored row that the code reads: the functional purpose has none.
abbrev pub non_essential : Option ConsentRecord → ExplicitConsent
non_essential none = no_consent
non_essential (some last) = elim last.explicit_purposes [
  | none ↦ no_consent
  | some stored ↦ record stored { functional = none }
]

unfoldable pub load_explicit_consent : String → List ConsentRecord → ExplicitConsent
load_explicit_consent subject_key records =
    non_essential (latest (λ r. r.created_at) (filter (banner_of subject_key) records))

unfoldable pub latest_for : String → List ConsentRecord → Option ConsentRecord
latest_for subject_key records =
    latest (λ r. r.created_at) (filter (of_subject subject_key) records)

unfoldable pub is_unchanged :
    ConsentRecord → Jurisdiction → LegalBasis → EffectiveConsentState → DecideAndRecordParams → Bool
is_unchanged previous jurisdiction legal_basis state params =
    jurisdiction_eq previous.jurisdiction jurisdiction
    && bool_eq previous.gpc params.gpc
    && previous.rule_version == rule_version
    && basis_eq previous.legal_basis legal_basis
    && same previous.visitor_session_id params.visitor_session_id
    && every (λ p. decision_eq (decision previous.purposes p) (decision state.purposes p))
        consent_purposes

-- The audit actions of a decision, in order.
unfoldable pub decision_actions : DecideAndRecordParams → List String
decision_actions params =
    (if or_else params.country "" == ""
      then "privacy.location_unknown" ∷ "privacy.geolocation_default_applied" ∷ []
      else "privacy.location_resolved" ∷ [])
    ++ "privacy.rule_applied"
      ∷ (if params.gpc then "privacy.gpc_detected" ∷ "privacy.gpc_applied" ∷ [] else [])
    ++ (if is_banner params.source
        then (if forces_withdrawn params.legal_basis_override
            then "privacy.consent_withdrawn"
            else "privacy.consent_recorded")
          ∷ []
        else [])
  where
    forces_withdrawn : Option LegalBasis → Bool
    forces_withdrawn (some withdrawn) = true
    forces_withdrawn _ = false

emit_each : (String → AuditEntry) → List String → ConsentStore → ConsentStore
emit_each entry [] db = db
emit_each entry (action ∷ actions) db = emit_each entry actions (record_audit (entry action) db)

unfoldable pub emit_decision_events :
    DecideAndRecordParams → ConsentRecord → Jurisdiction → ConsentStore → ConsentStore
unfolding emit_each
emit_decision_events params r jurisdiction db =
    emit_each
      (λ action. record {
        tenant_id = params.tenant_id;
        action = action;
        resource_type = "consent_record";
        resource_id = r.id;
        user_agent = params.user_agent;
        metadata =
            decision_metadata jurisdiction params.source params.gpc rule_version r.purposes
              (slice params.subject_key 0 12);
      })
      (decision_actions params) db

module _ (to_upper_case : String → String) (hmac : String → String) where
  unfoldable pub hash_ip : Option String → Option String
  hash_ip none = none
  hash_ip (some ip) = if ip == "" then none else some (hmac ip)

  unfoldable pub resolve_state :
      String → Option String → Option String → Bool → ConsentStore → EffectiveConsentState
  resolve_state subject_key country region gpc db =
      decide (resolve_jurisdiction to_upper_case country region) gpc
        (load_explicit_consent subject_key db.consent_records)

  -- The choices that a decision rests on: the stored ones, the new ones over them.
  abbrev pub explicit_of : DecideAndRecordParams → ConsentStore → ExplicitConsent
  explicit_of params db =
      merge (load_explicit_consent params.subject_key db.consent_records)
        (or_else params.explicit_consent no_consent)

  abbrev pub jurisdiction_of : DecideAndRecordParams → Jurisdiction
  jurisdiction_of params = resolve_jurisdiction to_upper_case params.country params.region

  -- `{ ...state, legalBasis }`
  unfoldable pub state_of : DecideAndRecordParams → ConsentStore → EffectiveConsentState
  state_of params db =
      let state = decide (jurisdiction_of params) params.gpc (explicit_of params db) in
      let basis = or_else params.legal_basis_override state.legal_basis in
      record state { legal_basis = basis }

  unfoldable pub new_record : ℕ → String → DecideAndRecordParams → ConsentStore → ConsentRecord
  unfolding hash_ip
  new_record now id params db =
      let state = state_of params db in
      record {
        id = id;
        tenant_id = params.tenant_id;
        visitor_session_id = params.visitor_session_id;
        subject_key = params.subject_key;
        jurisdiction = jurisdiction_of params;
        legal_basis = state.legal_basis;
        source = params.source;
        gpc = params.gpc;
        rule_version = rule_version;
        purposes = state.purposes;
        explicit_purposes = some (explicit_of params db);
        ip_hash = hash_ip params.ip;
        user_agent = params.user_agent;
        created_at = now;
      }

  -- The earlier record, where the code returns it and writes nothing.
  unfoldable pub if_unchanged :
      DecideAndRecordParams → ConsentStore → Option ConsentRecord → Option ConsentRecord
  if_unchanged params db none = none
  if_unchanged params db (some previous) =
      let state = state_of params db in
      if params.skip_if_unchanged
        && is_unchanged previous (jurisdiction_of params) state.legal_basis state params
      then some previous
      else none

  unfoldable pub skipped : DecideAndRecordParams → ConsentStore → Option ConsentRecord
  skipped params db = if_unchanged params db (latest_for params.subject_key db.consent_records)

  unfoldable pub record_decision :
      ℕ
      → String
      → DecideAndRecordParams
      → ConsentStore
      → Option ConsentRecord
      → (ConsentRecord × EffectiveConsentState) × ConsentStore
  record_decision now id params db (some previous) = ((previous, state_of params db), db)
  record_decision now id params db none =
      let r = new_record now id params db in
      let created = record db { consent_records = db.consent_records ++ r ∷ [] } in
      ((r, state_of params db), emit_decision_events params r (jurisdiction_of params) created)

  unfoldable pub decide_and_record :
      ℕ
      → String
      → DecideAndRecordParams
      → ConsentStore
      → (ConsentRecord × EffectiveConsentState) × ConsentStore
  decide_and_record now id params db = record_decision now id params db (skipped params db)
