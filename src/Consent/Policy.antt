-- ===== src/Consent/Policy.antt =====
-- api/src/services/consent-policy.ts. `toUpperCase` is a parameter; an absent, null or undefined
-- argument is `none`.
pub mod Bounds
pub mod Decision
use livechat.Prelude.{
  String, Bool, true, false, not, ◌&&◌, ◌||◌, Option, none, some, List, [], ◌∷◌, ◌==◌, includes,
  filter, is_null, if◌then◌else◌,
}
use livechat.Shared.{
  ConsentPurpose, PurposeDecision, granted, denied, Jurisdiction, eu, uk, us_ca, us, unknown,
  LegalBasis, PurposeState, is_granted,
}

abbrev pub rule_version : String
rule_version = "2026-08-15.1"

pub data PurposeMode : Type 0 where
  always opt_in opt_out : PurposeMode

-- `RULES`: the functional purpose is always on; the other two follow the jurisdiction.
unfoldable pub rules : Jurisdiction → ConsentPurpose → PurposeMode
rules j ConsentPurpose.functional = always
rules eu _ = opt_in
rules uk _ = opt_in
rules us_ca _ = opt_out
rules us _ = opt_out
rules unknown _ = opt_in

unfoldable pub eu_eea : List String
eu_eea =
    "AT" ∷ "BE" ∷ "BG" ∷ "HR" ∷ "CY" ∷ "CZ" ∷ "DK" ∷ "EE" ∷ "FI" ∷ "FR" ∷ "DE" ∷ "GR" ∷ "HU" ∷ "IE"
    ∷ "IT" ∷ "LV" ∷ "LT" ∷ "LU" ∷ "MT" ∷ "NL" ∷ "PL" ∷ "PT" ∷ "RO" ∷ "SK" ∷ "SI" ∷ "ES" ∷ "SE"
    ∷ "IS" ∷ "LI" ∷ "NO" ∷ []

-- `x ?? ''`
abbrev pub or_empty : Option String → String
or_empty none = ""
or_empty (some s) = s

module _ (to_upper_case : String → String) where
  bucket : String → Option String → Jurisdiction
  bucket cc region =
      if cc == "GB" || cc == "UK"
      then uk
      else if includes cc eu_eea
      then eu
      else if cc == "US"
      then (if to_upper_case (or_empty region) == "CA" then us_ca else us)
      else unknown

  unfoldable pub resolve_jurisdiction : Option String → Option String → Jurisdiction
  unfolding bucket
  resolve_jurisdiction none region = unknown
  resolve_jurisdiction (some country) region =
      if country == "" then unknown else bucket (to_upper_case country) region

-- `Partial<Record<ConsentPurpose, PurposeDecision>>`
pub record ExplicitConsent : Type 0 where
  pub functional : Option PurposeDecision
  pub presence : Option PurposeDecision
  pub analytics : Option PurposeDecision

abbrev pub no_consent : ExplicitConsent
no_consent = record { functional = none; presence = none; analytics = none }

abbrev pub choice : ExplicitConsent → ConsentPurpose → Option PurposeDecision
choice e ConsentPurpose.functional = e.functional
choice e ConsentPurpose.presence = e.presence
choice e ConsentPurpose.analytics = e.analytics

abbrev pub decision : PurposeState → ConsentPurpose → PurposeDecision
decision s ConsentPurpose.functional = s.functional
decision s ConsentPurpose.presence = s.presence
decision s ConsentPurpose.analytics = s.analytics

abbrev pub said_granted : Option PurposeDecision → Bool
said_granted (some granted) = true
said_granted _ = false

abbrev pub said_denied : Option PurposeDecision → Bool
said_denied (some denied) = true
said_denied _ = false

unfoldable pub decide_purpose : PurposeMode → Bool → Option PurposeDecision → PurposeDecision
decide_purpose always gpc explicit = granted
decide_purpose opt_in gpc explicit =
    if gpc && not (said_granted explicit)
    then denied
    else if said_granted explicit
    then granted
    else denied
decide_purpose opt_out gpc explicit =
    if gpc && not (said_granted explicit)
    then denied
    else if said_denied explicit
    then denied
    else granted

abbrev pub is_opt_in : PurposeMode → Bool
is_opt_in opt_in = true
is_opt_in _ = false

unfoldable pub pick_legal_basis : Jurisdiction → Bool → PurposeState → LegalBasis
pick_legal_basis jurisdiction gpc effective =
    let non_essential_granted = is_granted effective.presence || is_granted effective.analytics in
    let asks = is_opt_in (rules jurisdiction ConsentPurpose.presence) in
    if gpc
    then LegalBasis.opt_out
    else if not non_essential_granted
    then (if asks then LegalBasis.no_basis else LegalBasis.opt_out)
    else if asks
    then LegalBasis.consent
    else LegalBasis.legitimate_interest

pub record EffectiveConsentState : Type 0 where
  pub jurisdiction : Jurisdiction
  pub gpc : Bool
  pub rule_version : String
  pub legal_basis : LegalBasis
  pub purposes : PurposeState
  pub requires_opt_in : List ConsentPurpose

abbrev pub consent_purposes : List ConsentPurpose
consent_purposes =
    ConsentPurpose.functional ∷ ConsentPurpose.presence ∷ ConsentPurpose.analytics ∷ []

module _ (jurisdiction : Jurisdiction) (gpc : Bool) (consent : ExplicitConsent) where
  decide_one : ConsentPurpose → PurposeDecision
  decide_one purpose = decide_purpose (rules jurisdiction purpose) gpc (choice consent purpose)

  purposes_of : PurposeState
  unfolding decide_one
  purposes_of = record {
    functional = decide_one ConsentPurpose.functional;
    presence = decide_one ConsentPurpose.presence;
    analytics = decide_one ConsentPurpose.analytics;
  }

  asks_for : ConsentPurpose → Bool
  unfolding decide_one
  asks_for purpose = is_opt_in (rules jurisdiction purpose) && not (is_granted (decide_one purpose))

  unfoldable pub decide : EffectiveConsentState
  unfolding purposes_of asks_for
  decide = record {
    jurisdiction = jurisdiction;
    gpc = gpc;
    rule_version = rule_version;
    legal_basis = pick_legal_basis jurisdiction gpc purposes_of;
    purposes = purposes_of;
    requires_opt_in = filter asks_for consent_purposes;
  }
