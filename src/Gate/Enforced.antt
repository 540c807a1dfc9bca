-- ===== src/Gate/Enforced.antt =====
-- api/src/routes/privacy.ts: a decision against tracking is enforced.
use livechat.ApiError.{Result, ok, err, ApiError}
use livechat.Prelude.{
  String, ◌≡◌, refl, sym, ap, subst, ◌∙◌, inl, inr, not, Option, none, List, arith, Bool-cases,
  Option-cases, if◌then◌else◌,
}
use livechat.Prelude.Action.{Result-cases, pure, bind_ok, then_pure}
use livechat.Shared.{PurposeDecision, denied, LegalBasis, is_granted}
use livechat.Models.{Tenant}
use livechat.Visitor.Session.{find_by_subject, forget_by_subject_key}
use livechat.Consent.Policy.{ExplicitConsent, EffectiveConsentState}
use livechat.Consent.Records.{ConsentStore}
use livechat.Consent.Service.{DecideAndRecordParams, decide_and_record}
use livechat.Request.{Request, CookieOptions, ResolvedSubject, resolve_active_tenant}
use livechat.Gate.{Deps, Fresh, keyed, forget_subject, decided}
use livechat.Gate.Banner.{BannerBody, subject, banner_params, enforce, record_banner_decision}
use livechat.Gate.Loads.{IsBy}
use livechat.Gate.Untracked.{Unique, decided-tables, forget_subject-gone}

module _ (deps : Deps) (fresh : Fresh) (req : Request) where
  abbrev pub state_after : DecideAndRecordParams → ConsentStore → EffectiveConsentState
  state_after params db =
      (decide_and_record deps.geo.to_upper_case (keyed deps) fresh.now fresh.record_id params
        db).0.1

  forget_subject-ok :
      (subject_key : String) (db : ConsentStore) → (forget_subject subject_key db).0 ≡ ok tt
  unfolding forget_subject forget_by_subject_key
  forget_subject-ok subject_key db = elim (Option-cases (find_by_subject subject_key db.tables)) [
    | inl gone ↦ ground arith
    | inr (s, found) ↦ ground arith
  ]

  -- The tables after a banner action.
  abbrev pub enforced : DecideAndRecordParams → ConsentStore → ConsentStore
  enforced params db =
      let after = (decided deps fresh req params db).1 in
      if not (is_granted (state_after params db).purposes.presence)
      then (forget_subject params.subject_key after).1
      else after

  enforce-enforced :
      (params : DecideAndRecordParams) (db : ConsentStore)
      → enforce deps fresh req params db ≡ (ok (state_after params db), enforced params db)
  unfolding enforce
  enforce-enforced params db =
      let after = (decided deps fresh req params db).1 in
      elim (Bool-cases (is_granted (state_after params db).purposes.presence)) [
        | inl on ↦ rw on refl
        | inr off ↦ rw off (
            then_pure (forget_subject params.subject_key) (state_after params db) after
              (forget_subject-ok params.subject_key after))
      ]

  pub Unique-decided :
      (params : DecideAndRecordParams) (db : ConsentStore)
      → Unique deps params.subject_key db.tables
      → Unique deps params.subject_key (decided deps fresh req params db).1.tables
  Unique-decided params db unique =
      subst (Unique deps params.subject_key) (sym (decided-tables deps fresh req params db)) unique

  pub enforced-gone :
      (params : DecideAndRecordParams) (db : ConsentStore)
      → Unique deps params.subject_key db.tables
      → (state_after params db).purposes.presence ≡ denied
      → find_by_subject params.subject_key (enforced params db).tables ≡ none
  enforced-gone params db unique off = rw off (
      forget_subject-gone deps params.subject_key (decided deps fresh req params db).1
        (Unique-decided params db unique))

  -- The route once the tenant and the subject are known.
  pub record_banner_decision-known :
      (tenants : List Tenant) (body : BannerBody) (chosen : ExplicitConsent)
      (basis : Option LegalBasis) (tenant : Tenant) (who : ResolvedSubject) (db : ConsentStore)
      → resolve_active_tenant body.tenant_key tenants ≡ ok tenant
      → subject deps fresh req ≡ ok who
      → record_banner_decision deps fresh req tenants body chosen basis db ≡ (
          let params = banner_params deps fresh req body tenant.id who.subject_key chosen basis in
          (ok (state_after params db, who.set_cookie), enforced params db))
  unfolding record_banner_decision
  record_banner_decision-known tenants body chosen basis tenant who db known presented =
      rw (known, presented)
        (bind_ok (enforce deps fresh req params) (λ state. pure (state, who.set_cookie)) db
          (enforce-enforced params db))
    where
      params : DecideAndRecordParams
      params = banner_params deps fresh req body tenant.id who.subject_key chosen basis

  pub record_banner_decision-unknown :
      (tenants : List Tenant) (body : BannerBody) (chosen : ExplicitConsent)
      (basis : Option LegalBasis) (db : ConsentStore) {e : ApiError}
      → resolve_active_tenant body.tenant_key tenants ≡ err e
      → record_banner_decision deps fresh req tenants body chosen basis db ≡ (err e, db)
  unfolding record_banner_decision
  record_banner_decision-unknown tenants body chosen basis db unknown = rw unknown refl

  -- Enforced: after a banner action, or a withdrawal, by a visitor whose answer says that presence
  -- tracking is denied, by choice or by a universal opt-out, no session of the visitor is left.
  pub record_banner_decision-gone :
      (subject_key : String) (tenants : List Tenant) (body : BannerBody) (chosen : ExplicitConsent)
      (basis : Option LegalBasis) (db : ConsentStore)
      (made : EffectiveConsentState × Option CookieOptions)
      → IsBy deps subject_key fresh req
      → Unique deps subject_key db.tables
      → (record_banner_decision deps fresh req tenants body chosen basis db).0 ≡ ok made
      → made.0.purposes.presence ≡ denied
      → find_by_subject subject_key
          (record_banner_decision deps fresh req tenants body chosen basis db).1.tables
        ≡ none
  record_banner_decision-gone subject_key tenants body chosen basis db made (who, presented, own)
        unique e off =
      elim (Result-cases (resolve_active_tenant body.tenant_key tenants)) [
        | inl (x, unknown) ↦ absurd (
            refused (
              sym (
                ap (λ r. r.0) (record_banner_decision-unknown tenants body chosen basis db unknown))
              ∙ e))
        | inr (tenant, known) ↦
            (let params =
                banner_params deps fresh req body tenant.id who.subject_key chosen basis in
              let step =
                record_banner_decision-known tenants body chosen basis tenant who db known
                  presented in
              ap (λ r. find_by_subject subject_key r.1.tables) step
              ∙ subst (λ k. find_by_subject k (enforced params db).tables ≡ none) own
                  (enforced-gone params db (subst (λ k. Unique deps k db.tables) (sym own) unique)
                    (ap presence_of (sym (ap (λ r. r.0) step) ∙ e) ∙ off)))
      ]
    where
      refused : {x : ApiError} → ¬ (err x ≡ ok made)
      refused e = cc

      presence_of : Result (EffectiveConsentState × Option CookieOptions) → PurposeDecision
      presence_of (ok r) = r.0.purposes.presence
      presence_of (err x) = denied
