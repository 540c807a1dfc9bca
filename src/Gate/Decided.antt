-- ===== src/Gate/Decided.antt =====
-- api/src/routes/visitor.ts: a page load leaves a recorded decision.
use livechat.Prelude.{
  String, ◌≡◌, refl, sym, ap, subst, ◌∙◌, inl, inr, true, none, some, List, [], ◌∷◌, ◌++◌, arith,
  eq_iff, ◌==◌, filter, filter-append, latest-eq-none, Option-cases, if◌then◌else◌,
}
use livechat.Consent.Records.{ConsentRecord, ConsentStore}
use livechat.Consent.Service.{
  DecideAndRecordParams, of_subject, latest_for, if_unchanged, skipped, new_record,
}
use livechat.Consent.Service.Choices.{decide_and_record-cases}
use livechat.Request.{Request}
use livechat.Gate.{Deps, Fresh, keyed, decided}

-- The subject has a recorded decision.
abbrev pub HasDecision : String → ConsentStore → Type 0
HasDecision subject_key db =
    (r : ConsentRecord) × (latest_for subject_key db.consent_records ≡ some r)

latest_for-append :
    (rs : List ConsentRecord) (r : ConsentRecord)
    → ¬ (latest_for r.subject_key (rs ++ r ∷ []) ≡ none)
unfolding latest_for
latest_for-append rs r e = not_empty (filter (of_subject r.subject_key) rs) (
    sym (
      filter-append (of_subject r.subject_key) rs (r ∷ [])
      ∙ ap (λ b. filter (of_subject r.subject_key) rs ++ (if b then r ∷ [] else [])) itself)
    ∙ latest-eq-none (λ x. x.created_at) (filter (of_subject r.subject_key) (rs ++ r ∷ [])) e)
  where
    itself : (r.subject_key == r.subject_key) ≡ true
    itself = (eq_iff r.subject_key r.subject_key).1 refl

    not_empty : (xs : List ConsentRecord) → ¬ (xs ++ r ∷ [] ≡ [])
    not_empty [] p = ground arith
    not_empty (x ∷ xs) p = ground arith

found-some :
    (subject_key : String) (db : ConsentStore)
    → ¬ (latest_for subject_key db.consent_records ≡ none)
    → HasDecision subject_key db
found-some subject_key db there = elim (Option-cases (latest_for subject_key db.consent_records)) [
  | inl gone ↦ absurd (there gone)
  | inr found ↦ found
]

module _ (deps : Deps) (fresh : Fresh) (req : Request) where
  skipped-HasDecision :
      (params : DecideAndRecordParams) (db : ConsentStore) (previous : ConsentRecord)
      → skipped deps.geo.to_upper_case (keyed deps) params db ≡ some previous
      → HasDecision params.subject_key db
  unfolding skipped if_unchanged
  skipped-HasDecision params db previous skip =
      found-some params.subject_key db (λ gone. no_previous gone skip)
    where
      no_previous :
          latest_for params.subject_key db.consent_records ≡ none
          → ¬ (skipped deps.geo.to_upper_case (keyed deps) params db ≡ some previous)
      no_previous gone e = ground arith

  pub decided-HasDecision :
      (params : DecideAndRecordParams) (db : ConsentStore)
      → HasDecision params.subject_key (decided deps fresh req params db).1
  unfolding new_record
  decided-HasDecision params db =
      elim (decide_and_record-cases deps.geo.to_upper_case (keyed deps) fresh.now fresh.record_id
        params db) [
          | inl (previous, flag, skip, e) ↦
              subst (λ r. HasDecision params.subject_key r.1) (sym e)
                (skipped-HasDecision params db previous skip)
          | inr (write, made, rows, tables) ↦
              found-some params.subject_key (decided deps fresh req params db).1 (λ gone.
                latest_for-append db.consent_records
                  (new_record deps.geo.to_upper_case (keyed deps) fresh.now fresh.record_id params
                    db)
                  (ap (latest_for params.subject_key) (sym rows) ∙ gone))
        ]
