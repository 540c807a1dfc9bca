-- ===== src/Consent/Service/Requests.antt =====
-- api/src/services/consent-service.ts: `fulfilDataRequest`. Deleting sessions sets the
-- `visitor_session_id` of their consent records to null (the foreign key's ON DELETE SET NULL).
pub mod Erasure
use livechat.Prelude.{
  ℕ, String, Bool, true, false, not, ◌&&◌, Option, none, some, List, [], ◌∷◌, map, length, ◌==◌,
  slice, filter, includes, update, if◌then◌else◌,
}
use livechat.Models.{Chat, ChatMessage, VisitorSession, Store, destroy_sessions}
use livechat.Visitor.Pii.{visitor_pii_nulls}
use livechat.Consent.Records.{
  ConsentRecord, RetentionStrategy, anonymize, DataRequestType, export, Metadata, request_metadata,
  ConsentStore, record_audit, unlink,
}
use livechat.Consent.Service.{or_else, of_subject}

pub record DataRequestParams : Type 0 where
  pub tenant_id : String
  pub subject_key : String
  pub request_type : DataRequestType
  pub strategy : Option RetentionStrategy

pub record ExportedData : Type 0 where
  pub visitor_sessions : List VisitorSession
  pub chats : List Chat
  pub messages : List ChatMessage
  pub consent_records : List ConsentRecord

pub data DataRequestResult : Type 0 where
  exported : String → ExportedData → DataRequestResult
  erased : String → RetentionStrategy → ℕ → ℕ → DataRequestResult

module _ (params : DataRequestParams) where
  abbrev pub belongs : VisitorSession → Bool
  belongs s = s.tenant_id == params.tenant_id && s.session_cookie_hash == params.subject_key

  abbrev pub recorded : ConsentRecord → Bool
  recorded r = r.tenant_id == params.tenant_id && of_subject params.subject_key r

  -- The four `findAll`s.
  unfoldable pub subject_data : ConsentStore → ExportedData
  subject_data db =
      let sessions = filter belongs db.tables.visitor_sessions in
      let session_ids = map (λ s. s.id) sessions in
      let chats = filter (λ c. includes c.visitor_session_id session_ids) db.tables.chats in
      let chat_ids = map (λ c. c.id) chats in
      record {
        visitor_sessions = sessions;
        chats = chats;
        messages = filter (λ m. includes m.chat_id chat_ids) db.tables.messages;
        consent_records = filter recorded db.consent_records;
      }

  abbrev pub session_ids : ConsentStore → List String
  session_ids db = map (λ s. s.id) (filter belongs db.tables.visitor_sessions)

  unfoldable pub dispose : RetentionStrategy → ConsentStore → ConsentStore
  dispose RetentionStrategy.delete db = record db {
    tables = destroy_sessions (session_ids db) db.tables;
    consent_records = map (unlink (session_ids db)) db.consent_records;
  }
  dispose anonymize db =
      let rows =
        update (λ s. includes s.id (session_ids db)) visitor_pii_nulls db.tables.visitor_sessions in
      let tables = record db.tables { visitor_sessions = rows } in record db { tables = tables }

  unfoldable pub erase : ConsentStore → ConsentStore
  unfolding dispose
  erase db =
      let disposed = dispose (or_else params.strategy anonymize) db in
      record disposed { consent_records = filter (λ r. not (recorded r)) disposed.consent_records }

  unfoldable pub request_entry : String → ConsentStore → ConsentStore → ConsentStore
  unfolding subject_data
  request_entry request_id before db =
      let found = subject_data before in
      record_audit
        (record {
          tenant_id = params.tenant_id;
          action = "privacy.data_request";
          resource_type = "consent_record";
          resource_id = request_id;
          user_agent = none;
          metadata =
              request_metadata params.request_type (slice params.subject_key 0 12)
                (length found.visitor_sessions) (length found.chats) (length found.messages)
                (length found.consent_records) (reported params.request_type);
        })
        db
    where
      reported : DataRequestType → Option RetentionStrategy
      reported export = none
      reported DataRequestType.delete = some (or_else params.strategy anonymize)

  unfoldable pub answer : String → ConsentStore → DataRequestType → DataRequestResult × ConsentStore
  answer request_id db export =
      (exported request_id (subject_data db), request_entry request_id db db)
  answer request_id db DataRequestType.delete =
      let found = subject_data db in
      (
        erased request_id (or_else params.strategy anonymize) (length found.visitor_sessions)
            (length found.consent_records),
        request_entry request_id db (erase db),
      )

  unfoldable pub fulfil_data_request : String → ConsentStore → DataRequestResult × ConsentStore
  fulfil_data_request request_id db = answer request_id db params.request_type
