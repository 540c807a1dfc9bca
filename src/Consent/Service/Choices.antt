-- ===== src/Consent/Service/Choices.antt =====
-- api/src/services/consent-service.ts: which choices a later decision rests on.
use livechat.Prelude.{
  ℕ, ◌≤◌, String, ◌≡◌, refl, ap, ◌∙◌, inl, inr, ◌⊎◌, true, false, Option, none, some, List, [], ◌∷◌,
  ◌++◌, arith, filter, All, latest, Option-cases,
}
use livechat.Shared.{is_banner}
use livechat.Consent.Records.{ConsentRecord, AuditEntry, ConsentStore, record_audit}
use livechat.Consent.Service.{
  DecideAndRecordParams, banner_of, non_essential, load_explicit_consent, latest_for, if_unchanged,
  emit_each, emit_decision_events, decision_actions, state_of, new_record, skipped, record_decision,
  decide_and_record,
}

emit_each-keeps :
    (entry : String → AuditEntry) (actions : List String) (db : ConsentStore)
    → ((emit_each entry actions db).consent_records ≡ db.consent_records)
      × ((emit_each entry actions db).tables ≡ db.tables)
unfolding emit_each record_audit
emit_each-keeps entry [] db = (refl, refl)
emit_each-keeps entry (action ∷ actions) db =
    emit_each-keeps entry actions (record_audit (entry action) db)

filter-banner_of_skip :
    (subject_key : String) (rows : List ConsentRecord) (r : ConsentRecord)
    → banner_of subject_key r ≡ false
    → filter (banner_of subject_key) (rows ++ r ∷ []) ≡ filter (banner_of subject_key) rows
filter-banner_of_skip subject_key [] r e = ground arith
filter-banner_of_skip subject_key (x ∷ rows) r e =
    ground (arith, filter-banner_of_skip subject_key rows r e)

pub load_explicit_consent-append :
    (subject_key : String) (rows : List ConsentRecord) (r : ConsentRecord)
    → banner_of subject_key r ≡ false
    → load_explicit_consent subject_key (rows ++ r ∷ []) ≡ load_explicit_consent subject_key rows
unfolding load_explicit_consent
load_explicit_consent-append subject_key rows r e =
    ap (λ rs. non_essential (latest (λ r. r.created_at) rs))
      (filter-banner_of_skip subject_key rows r e)

-- No stored row is newer than `now`.
abbrev pub Before : ℕ → ConsentStore → Type 0
Before now db = All (λ r. r.created_at ≤ now) db.consent_records

module _ (to_upper_case hmac : String → String) (now : ℕ) (id : String)
    (params : DecideAndRecordParams) (db : ConsentStore) where
  abbrev pub after_decision : ConsentStore
  after_decision = (decide_and_record to_upper_case hmac now id params db).1

  skipped_flag :
      {previous : ConsentRecord}
      → skipped to_upper_case hmac params db ≡ some previous
      → params.skip_if_unchanged ≡ true
  unfolding skipped if_unchanged
  skipped_flag e = elim (Option-cases (latest_for params.subject_key db.consent_records)) [
    | inl new ↦ ground arith
    | inr (last, found) ↦ ground arith
  ]

  pub decide_and_record-skipped :
      {found : Option ConsentRecord}
      → skipped to_upper_case hmac params db ≡ found
      → decide_and_record to_upper_case hmac now id params db
        ≡ record_decision to_upper_case hmac now id params db found
  unfolding decide_and_record
  decide_and_record-skipped e = ap (record_decision to_upper_case hmac now id params db) e

  -- What a decision writes: nothing, or one row after the others and entries of the audit trail.
  pub decide_and_record-cases :
      ((previous : ConsentRecord) × (params.skip_if_unchanged ≡ true)
        × (skipped to_upper_case hmac params db ≡ some previous)
        × (decide_and_record to_upper_case hmac now id params db
            ≡ ((previous, state_of to_upper_case hmac params db), db)))
      ⊎ ((skipped to_upper_case hmac params db ≡ none)
          × ((decide_and_record to_upper_case hmac now id params db).0 ≡ (
            new_record to_upper_case hmac now id params db,
            state_of to_upper_case hmac params db,
          ))
          × (after_decision.consent_records
              ≡ db.consent_records ++ new_record to_upper_case hmac now id params db ∷ [])
          × (after_decision.tables ≡ db.tables))
  unfolding decide_and_record record_decision emit_decision_events
  decide_and_record-cases = elim (Option-cases (skipped to_upper_case hmac params db)) [
    | inl write ↦
        (let e = decide_and_record-skipped write in
          let kept = emit_each-keeps _ (decision_actions params) created in
          inr (
            write,
            ap (λ r. r.0) e,
            ap (λ r. r.1.consent_records) e ∙ kept.0,
            ap (λ r. r.1.tables) e ∙ kept.1,
          ))
    | inr (previous, skip) ↦ inl (previous, skipped_flag skip, skip, decide_and_record-skipped skip)
  ]
    where
      created : ConsentStore
      created = record db {
        consent_records = db.consent_records ++ new_record to_upper_case hmac now id params db ∷ [];
      }

  new_record-default :
      (subject_key : String)
      → is_banner params.source ≡ false
      → banner_of subject_key (new_record to_upper_case hmac now id params db) ≡ false
  unfolding new_record
  new_record-default subject_key auto = ground arith

  -- A decision that is not a banner action never changes what a visitor chose: defaults of a
  -- jurisdiction are not read back as choices.
  pub load_explicit_consent-default :
      (subject_key : String)
      → is_banner params.source ≡ false
      → load_explicit_consent subject_key after_decision.consent_records
        ≡ load_explicit_consent subject_key db.consent_records
  load_explicit_consent-default subject_key auto = elim decide_and_record-cases [
    | inl (previous, flag, skip, e) ↦
        ap (λ d. load_explicit_consent subject_key d.consent_records) (ap (λ r. r.1) e)
    | inr (write, made, rows, tables) ↦
        ap (load_explicit_consent subject_key) rows
        ∙ load_explicit_consent-append subject_key db.consent_records _
            (new_record-default subject_key auto)
  ]
