-- ===== src/Consent/Service/Banner.antt =====
-- api/src/services/consent-service.ts: what a banner action changes.
use livechat.Prelude.{
  ℕ, ◌≤◌, String, ◌≡◌, ◌≢◌, ap, ◌∙◌, inl, inr, Bool, true, false, Option, none, some, List, [], ◌∷◌,
  ◌++◌, arith, eq_iff, filter, filter-append, All, All-filter, All-map, latest, latest-append,
}
use livechat.Shared.{denied, is_banner}
use livechat.Consent.Policy.{ExplicitConsent, no_consent}
use livechat.Consent.Policy.Bounds.{decide-denied}
use livechat.Consent.Records.{ConsentRecord, ConsentStore}
use livechat.Consent.Service.{
  DecideAndRecordParams, or_else, merge, banner_of, non_essential, load_explicit_consent,
  resolve_state, explicit_of, new_record,
}
use livechat.Consent.Service.Choices.{
  Before, after_decision, decide_and_record-cases, load_explicit_consent-append,
}

-- The choices that are read back.
abbrev pub without_functional : ExplicitConsent → ExplicitConsent
without_functional e = record e { functional = none }

load_explicit_consent-banner :
    (subject_key : String) (now : ℕ) (rows : List ConsentRecord) (r : ConsentRecord)
    → All (λ x. x.created_at ≤ r.created_at) rows
    → banner_of subject_key r ≡ true
    → load_explicit_consent subject_key (rows ++ r ∷ []) ≡ non_essential (some r)
unfolding load_explicit_consent
load_explicit_consent-banner subject_key now rows r older e =
    ap (λ rs. non_essential (latest (λ r. r.created_at) rs))
      (filter-append (banner_of subject_key) rows (r ∷ []))
    ∙ rw e (
        ap non_essential (
          latest-append (λ r. r.created_at) (filter (banner_of subject_key) rows) r
            (All-filter _ (banner_of subject_key) rows (All-map rows (λ x h _. h) older))))

module _ (to_upper_case hmac : String → String) (now : ℕ) (id : String)
    (params : DecideAndRecordParams) (db : ConsentStore) where
  -- A banner action is remembered: the choices read for its visitor afterwards are the stored ones
  -- with the new ones over them, and those of every other visitor are what they were.
  pub load_explicit_consent-after :
      is_banner params.source ≡ true
      → params.skip_if_unchanged ≡ false
      → Before now db
      → (load_explicit_consent params.subject_key
            (after_decision to_upper_case hmac now id params db).consent_records
          ≡ without_functional (explicit_of to_upper_case hmac params db))
        × ((subject_key : String)
            → subject_key ≢ params.subject_key
            → load_explicit_consent subject_key
                (after_decision to_upper_case hmac now id params db).consent_records
              ≡ load_explicit_consent subject_key db.consent_records)
  unfolding new_record
  load_explicit_consent-after shown always older =
      elim (decide_and_record-cases to_upper_case hmac now id params db) [
        | inl (previous, flag, skip, e) ↦ cc
        | inr (write, made, rows, tables) ↦ (
          ap (load_explicit_consent params.subject_key) rows
              ∙ load_explicit_consent-banner params.subject_key now db.consent_records
                  (new_record to_upper_case hmac now id params db) older
                  (ground (arith, eq_iff params.subject_key params.subject_key)),
          λ subject_key other.
              ap (load_explicit_consent subject_key) rows
              ∙ load_explicit_consent-append subject_key db.consent_records _
                  (ground (arith, eq_iff params.subject_key subject_key)),
        )
      ]

  -- After a visitor withdraws, tracking is off for them in every jurisdiction, with or without a
  -- universal opt-out.
  pub resolve_state-withdrawn :
      (country region : Option String) (gpc : Bool)
      → params.explicit_consent
        ≡ some (record { functional = none; presence = some denied; analytics = some denied })
      → is_banner params.source ≡ true
      → params.skip_if_unchanged ≡ false
      → Before now db
      → ((resolve_state to_upper_case hmac params.subject_key country region gpc
            (after_decision to_upper_case hmac now id params db)).purposes.presence
          ≡ denied)
        × ((resolve_state to_upper_case hmac params.subject_key country region gpc
              (after_decision to_upper_case hmac now id params db)).purposes.analytics
            ≡ denied)
  unfolding resolve_state
  resolve_state-withdrawn country region gpc withdraws shown always older =
      let read = (load_explicit_consent-after shown always older).0 in
      decide-denied _ gpc _
        (ap (λ e. e.presence) read
          ∙ ap
              (λ c.
                (merge (load_explicit_consent params.subject_key db.consent_records)
                  (or_else c no_consent)).presence)
              withdraws)
        (ap (λ e. e.analytics) read
          ∙ ap
              (λ c.
                (merge (load_explicit_consent params.subject_key db.consent_records)
                  (or_else c no_consent)).analytics)
              withdraws)
