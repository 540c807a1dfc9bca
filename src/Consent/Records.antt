-- ===== src/Consent/Records.antt =====
-- api/src/models/consent-record.ts and the entries of the audit trail that consent writes. The
-- column `inc` and the soft-delete column, which nothing of this code sets, are left out.
use livechat.Prelude.{
  ℕ, String, Bool, Option, List, [], ◌∷◌, ◌++◌, none, some, includes, if◌then◌else◌,
}
use livechat.Shared.{Jurisdiction, LegalBasis, ConsentSource, PurposeState}
use livechat.Models.{Store}
use livechat.Consent.Policy.{ExplicitConsent}

pub record ConsentRecord : Type 0 where
  pub id : String
  pub tenant_id : String
  pub visitor_session_id : Option String
  pub subject_key : String
  pub jurisdiction : Jurisdiction
  pub legal_basis : LegalBasis
  pub source : ConsentSource
  pub gpc : Bool
  pub rule_version : String
  pub purposes : PurposeState
  pub explicit_purposes : Option ExplicitConsent
  pub ip_hash : Option String
  pub user_agent : Option String
  pub created_at : ℕ

pub data RetentionStrategy : Type 0 where
  anonymize delete : RetentionStrategy

pub data DataRequestType : Type 0 where
  export delete : DataRequestType

-- The `metadata` object of an entry.
pub data Metadata : Type 0 where
  decision_metadata :
      Jurisdiction → ConsentSource → Bool → String → PurposeState → String → Metadata
  request_metadata : DataRequestType → String → ℕ → ℕ → ℕ → ℕ → Option RetentionStrategy → Metadata

pub record AuditEntry : Type 0 where
  pub tenant_id : String
  pub action : String
  pub resource_type : String
  pub resource_id : String
  pub user_agent : Option String
  pub metadata : Metadata

-- The tables that the consent service works on.
pub record ConsentStore : Type 0 where
  pub tables : Store
  pub consent_records : List ConsentRecord
  pub audit_logs : List AuditEntry

-- ON DELETE SET NULL
abbrev pub unlinked : List String → Option String → Option String
unlinked ids none = none
unlinked ids (some id) = if includes id ids then none else some id

-- What the delete of sessions does to their consent records.
abbrev pub unlink : List String → ConsentRecord → ConsentRecord
unlink ids r = record r { visitor_session_id = unlinked ids r.visitor_session_id }

-- `deps.audit.record(entry)`
unfoldable pub record_audit : AuditEntry → ConsentStore → ConsentStore
record_audit entry db = record db { audit_logs = db.audit_logs ++ entry ∷ [] }
