-- ===== src/Consent/Service/Requests/Erasure.antt =====
-- api/src/services/consent-service.ts: what an erasure leaves, and whose data it touches.
use livechat.Prelude.{
  String, ◌≡◌, refl, sym, ap, subst, inl, inr, Bool, true, false, not, some, List, [], ◌∷◌, arith,
  eq_iff, ◌==◌, filter, includes, find, update, All, All-filter, All-map, All-trivial, kept-All,
  Bool-cases,
}
use livechat.Models.{VisitorSession, chat_ids_of, destroy_sessions}
use livechat.Visitor.Pii.{IsAnonymous, visitor_pii_nulls, visitor_pii_nulls-IsAnonymous}
use livechat.Visitor.Rows.{listed}
use livechat.Consent.Records.{
  RetentionStrategy, anonymize, DataRequestType, export, ConsentStore, record_audit,
}
use livechat.Consent.Service.{or_else}
use livechat.Consent.Service.Requests.{
  DataRequestParams, belongs, recorded, session_ids, subject_data, dispose, erase, answer,
  request_entry, fulfil_data_request,
}

filter-none :
    {A : Type 0} (p : A → Bool) (xs : List A) → All (λ x. p x ≡ false) xs → filter p xs ≡ []
filter-none p [] h = refl
filter-none p (x ∷ xs) (e, h) = ground (arith, filter-none p xs h)

anonymized :
    (p : VisitorSession → Bool) (ids : List String) (xs : List VisitorSession)
    → All (λ s. p s ≡ true → includes s.id ids ≡ true) xs
    → All (λ s. p s ≡ true → IsAnonymous s) (update (λ s. includes s.id ids) visitor_pii_nulls xs)
unfolding update
anonymized p ids [] h = tt
anonymized p ids (x ∷ xs) (k, h) = elim (Bool-cases (includes x.id ids)) [
  | inl hit ↦ rw hit ((λ e. visitor_pii_nulls-IsAnonymous x), anonymized p ids xs h)
  | inr other ↦ rw other ((λ e. ground arith), anonymized p ids xs h)
]

find-filter :
    (id : String) (ids : List String) (xs : List VisitorSession)
    → includes id ids ≡ false
    → find (λ s. s.id == id) (filter (λ s. not (includes s.id ids)) xs) ≡ find (λ s. s.id == id) xs
unfolding find
find-filter id ids [] e = refl
find-filter id ids (x ∷ xs) e = ground (arith, eq_iff x.id id, find-filter id ids xs e)

find-anonymized :
    (id : String) (ids : List String) (xs : List VisitorSession)
    → includes id ids ≡ false
    → find (λ s. s.id == id) (update (λ s. includes s.id ids) visitor_pii_nulls xs)
      ≡ find (λ s. s.id == id) xs
unfolding find update visitor_pii_nulls
find-anonymized id ids [] e = refl
find-anonymized id ids (x ∷ xs) e = ground (arith, eq_iff x.id id, find-anonymized id ids xs e)

nothing_listed :
    {A : Type 0} (key : A → String) (xs : List A) → filter (λ x. includes (key x) []) xs ≡ []
nothing_listed key xs = filter-none _ xs (All-trivial xs (λ x. refl))

subject_data-nothing :
    (params : DataRequestParams) (db : ConsentStore)
    → filter (belongs params) db.tables.visitor_sessions ≡ []
    → filter (recorded params) db.consent_records ≡ []
    → subject_data params db
      ≡ record { visitor_sessions = []; chats = []; messages = []; consent_records = [] }
unfolding subject_data
subject_data-nothing params db e f =
    let chats = nothing_listed (λ c. c.visitor_session_id) db.tables.chats in
    let messages = nothing_listed (λ m. m.chat_id) db.tables.messages in
    rw (e, chats, messages, f) refl

module _ (params : DataRequestParams) (db : ConsentStore) where
  -- What is left of the subject after an erasure.
  abbrev pub Erased : RetentionStrategy → ConsentStore → Type 0
  Erased RetentionStrategy.delete after =
      All (λ s. belongs params s ≡ false) after.tables.visitor_sessions
      × All (λ c. includes c.visitor_session_id (session_ids params db) ≡ false) after.tables.chats
      × All (λ m. includes m.chat_id (chat_ids_of (session_ids params db) db.tables) ≡ false)
          after.tables.messages
      × All (λ r. recorded params r ≡ false) after.consent_records
  Erased anonymize after =
      All (λ s. belongs params s ≡ true → IsAnonymous s) after.tables.visitor_sessions
      × (after.tables.chats ≡ db.tables.chats)
      × (after.tables.messages ≡ db.tables.messages)
      × All (λ r. recorded params r ≡ false) after.consent_records

  erase-Erased :
      (strategy : RetentionStrategy)
      → or_else params.strategy anonymize ≡ strategy
      → Erased strategy (erase params db)
  unfolding erase dispose destroy_sessions
  erase-Erased RetentionStrategy.delete e = rw e (
    All-filter _ _ db.tables.visitor_sessions (
        All-map db.tables.visitor_sessions (λ s h e. ground (arith, h))
          (listed (belongs params) db.tables.visitor_sessions)),
    kept-All _ db.tables.chats,
    kept-All _ db.tables.messages,
    kept-All (recorded params) (dispose params RetentionStrategy.delete db).consent_records,
  )
  erase-Erased anonymize e = rw e (
    anonymized (belongs params) (session_ids params db) db.tables.visitor_sessions
        (listed (belongs params) db.tables.visitor_sessions),
    refl,
    refl,
    kept-All (recorded params) (dispose params anonymize db).consent_records,
  )

  -- After an erasure by the delete strategy, the sessions of the visitor with the tenant, their
  -- chats, the messages of those and the visitor's consent records with the tenant are gone. By the
  -- anonymize strategy the sessions hold no address, browser, place, page, referrer or identity any
  -- more and the consent records are gone too, but the chats and messages stay as they are, with the
  -- name and the email address that the visitor gave.
  pub fulfil_data_request-Erased :
      (request_id : String) (strategy : RetentionStrategy)
      → params.request_type ≡ DataRequestType.delete
      → or_else params.strategy anonymize ≡ strategy
      → Erased strategy (fulfil_data_request params request_id db).1
  unfolding fulfil_data_request answer request_entry record_audit
  fulfil_data_request-Erased request_id RetentionStrategy.delete d e =
      subst (λ t. Erased RetentionStrategy.delete (answer params request_id db t).1) (sym d)
        (erase-Erased RetentionStrategy.delete e)
  fulfil_data_request-Erased request_id anonymize d e =
      subst (λ t. Erased anonymize (answer params request_id db t).1) (sym d)
        (erase-Erased anonymize e)

  -- After an erasure by the delete strategy a request for the visitor's data finds nothing.
  pub subject_data-erased :
      (request_id : String)
      → params.request_type ≡ DataRequestType.delete
      → params.strategy ≡ some RetentionStrategy.delete
      → subject_data params (fulfil_data_request params request_id db).1
        ≡ record { visitor_sessions = []; chats = []; messages = []; consent_records = [] }
  subject_data-erased request_id d e =
      let (sessions, chats, messages, records) =
        fulfil_data_request-Erased request_id RetentionStrategy.delete d
          (ap (λ s. or_else s anonymize) e) in
      subject_data-nothing params (fulfil_data_request params request_id db).1
        (filter-none (belongs params) _ sessions) (filter-none (recorded params) _ records)

  disposed :
      (strategy : RetentionStrategy) (id : String)
      → includes id (session_ids params db) ≡ false
      → find (λ s. s.id == id) (dispose params strategy db).tables.visitor_sessions
        ≡ find (λ s. s.id == id) db.tables.visitor_sessions
  unfolding dispose destroy_sessions
  disposed RetentionStrategy.delete id other = find-filter id _ _ other
  disposed anonymize id other = find-anonymized id _ _ other

  -- An erasure leaves every session but those of the visitor with the tenant as it was, by either
  -- strategy.
  pub fulfil_data_request-others :
      (request_id id : String)
      → includes id (session_ids params db) ≡ false
      → find (λ s. s.id == id) (fulfil_data_request params request_id db).1.tables.visitor_sessions
        ≡ find (λ s. s.id == id) db.tables.visitor_sessions
  unfolding fulfil_data_request answer request_entry record_audit erase
  fulfil_data_request-others request_id id other = answered params.request_type
    where
      answered :
          (t : DataRequestType)
          → find (λ s. s.id == id) (answer params request_id db t).1.tables.visitor_sessions
            ≡ find (λ s. s.id == id) db.tables.visitor_sessions
      answered export = refl
      answered DataRequestType.delete = disposed (or_else params.strategy anonymize) id other
