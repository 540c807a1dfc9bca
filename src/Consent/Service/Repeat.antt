-- ===== src/Consent/Service/Repeat.antt =====
-- api/src/services/consent-service.ts: a page load that decides nothing new leaves no trace.
use livechat.Prelude.{
  ℕ, ◌≤◌, String, ◌≡◌, refl, sym, ap, ◌∙◌, inl, inr, Bool, true, false, some, List, [], ◌∷◌, ◌++◌,
  arith, eq_iff, ◌==◌, filter, filter-append, All, All-filter, All-map, same_iff, latest,
  latest-append,
}
use livechat.Shared.{
  PurposeDecision, Jurisdiction, LegalBasis, is_banner, decision_eq, jurisdiction_eq, basis_eq,
  bool_eq,
}
use livechat.Consent.Policy.{EffectiveConsentState, rule_version}
use livechat.Consent.Records.{ConsentRecord, ConsentStore}
use livechat.Consent.Service.{
  DecideAndRecordParams, of_subject, load_explicit_consent, latest_for, is_unchanged,
  jurisdiction_of, state_of, new_record, if_unchanged, skipped, record_decision, decide_and_record,
}
use livechat.Consent.Service.Choices.{
  Before, after_decision, decide_and_record-cases, decide_and_record-skipped,
  load_explicit_consent-default,
}

jurisdiction_eq_refl : (j : Jurisdiction) → jurisdiction_eq j j ≡ true
jurisdiction_eq_refl j = ground arith

basis_eq_refl : (b : LegalBasis) → basis_eq b b ≡ true
basis_eq_refl b = ground arith

decision_eq_refl : (d : PurposeDecision) → decision_eq d d ≡ true
decision_eq_refl d = ground arith

bool_eq_refl : (b : Bool) → bool_eq b b ≡ true
bool_eq_refl b = ground arith

module _ (to_upper_case hmac : String → String) (params : DecideAndRecordParams) where
  is_unchanged-new_record :
      (now : ℕ) (id : String) (db : ConsentStore) (s : EffectiveConsentState)
      → state_of to_upper_case hmac params db ≡ s
      → is_unchanged
          (new_record to_upper_case hmac now id params db)
          (jurisdiction_of to_upper_case hmac params)
          s.legal_basis
          s
          params
        ≡ true
  unfolding is_unchanged new_record
  is_unchanged-new_record now id db s e =
      let j = jurisdiction_eq_refl (jurisdiction_of to_upper_case hmac params) in
      let b = basis_eq_refl s.legal_basis in
      let g = bool_eq_refl params.gpc in
      let v = (same_iff params.visitor_session_id params.visitor_session_id).1 refl in
      let f = decision_eq_refl s.purposes.functional in
      let p = decision_eq_refl s.purposes.presence in
      let a = decision_eq_refl s.purposes.analytics in
      rw e (ground (arith, eq_iff rule_version rule_version))

  -- The choices that a decision rests on, and so its state, depend on nothing else of the tables.
  state_of-same :
      (db db' : ConsentStore)
      → load_explicit_consent params.subject_key db'.consent_records
        ≡ load_explicit_consent params.subject_key db.consent_records
      → state_of to_upper_case hmac params db' ≡ state_of to_upper_case hmac params db
  unfolding state_of
  state_of-same db db' e = rw e refl

  skipped-new_record :
      (now : ℕ) (id : String) (db db' : ConsentStore)
      → params.skip_if_unchanged ≡ true
      → state_of to_upper_case hmac params db' ≡ state_of to_upper_case hmac params db
      → latest_for params.subject_key db'.consent_records
        ≡ some (new_record to_upper_case hmac now id params db)
      → skipped to_upper_case hmac params db'
        ≡ some (new_record to_upper_case hmac now id params db)
  unfolding skipped if_unchanged
  skipped-new_record now id db db' flag state last =
      let unchanged = is_unchanged-new_record now id db _ (sym state) in
      ap (if_unchanged to_upper_case hmac params db') last ∙ ground arith

  latest_for-append :
      (now : ℕ) (rows : List ConsentRecord) (r : ConsentRecord)
      → All (λ x. x.created_at ≤ r.created_at) rows
      → (r.subject_key == params.subject_key) ≡ true
      → latest_for params.subject_key (rows ++ r ∷ []) ≡ some r
  unfolding latest_for
  latest_for-append now rows r older own =
      ap (latest (λ r. r.created_at)) (filter-append (of_subject params.subject_key) rows (r ∷ []))
      ∙ rw own (
          latest-append (λ r. r.created_at) (filter (of_subject params.subject_key) rows) r
            (All-filter _ (of_subject params.subject_key) rows (All-map rows (λ x h _. h) older)))

  new_record-own :
      (now : ℕ) (id : String) (db : ConsentStore)
      → (new_record to_upper_case hmac now id params db).subject_key == params.subject_key ≡ true
  unfolding new_record
  new_record-own now id db = ground (arith, eq_iff params.subject_key params.subject_key)

  new_record-older :
      (now : ℕ) (id : String) (db : ConsentStore)
      → Before now db
      → All
          (λ x. x.created_at ≤ (new_record to_upper_case hmac now id params db).created_at)
          db.consent_records
  unfolding new_record
  new_record-older now id db older = older

  -- The gate of a page load is idempotent: loading again under the same conditions returns the same
  -- record and the same state and writes neither a record nor an audit entry, however often and
  -- whenever.
  pub decide_and_record-again :
      (now later : ℕ) (id id' : String) (db : ConsentStore)
      → params.skip_if_unchanged ≡ true
      → is_banner params.source ≡ false
      → Before now db
      → decide_and_record to_upper_case hmac later id' params
          (after_decision to_upper_case hmac now id params db)
        ≡ decide_and_record to_upper_case hmac now id params db
  unfolding record_decision
  decide_and_record-again now later id id' db flag auto older =
      elim (decide_and_record-cases to_upper_case hmac now id params db) [
        | inr (write, made, rows, tables) ↦
            (let db' = after_decision to_upper_case hmac now id params db in
              let r = new_record to_upper_case hmac now id params db in
              let same_choices =
                load_explicit_consent-default to_upper_case hmac now id params db params.subject_key
                  auto in
              let state = state_of-same db db' same_choices in
              let last =
                ap (latest_for params.subject_key) rows
                ∙ latest_for-append now db.consent_records r (new_record-older now id db older)
                    (new_record-own now id db) in
              decide_and_record-skipped to_upper_case hmac later id' params db'
                (skipped-new_record now id db db' flag state last)
              ∙ ap (λ s. ((r, s), db')) state
              ∙ ap (λ p. (p, db')) (sym made))
        | inl (previous, found, skip, e) ↦
            ap (λ d. decide_and_record to_upper_case hmac later id' params d) (ap (λ r. r.1) e)
            ∙ decide_and_record-skipped to_upper_case hmac later id' params db skip
            ∙ sym e
      ]
