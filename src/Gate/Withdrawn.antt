-- ===== src/Gate/Withdrawn.antt =====
-- api/src/routes/privacy.ts: a withdrawal of consent lasts.
use livechat.ApiError.{ok, err, ApiError}
use livechat.Prelude.{
  String, ◌≡◌, refl, sym, ap, subst, ◌∙◌, inl, inr, true, false, Option, none, some, List, arith,
  All,
}
use livechat.Prelude.Action.{Result-cases}
use livechat.Shared.{denied, withdrawn, is_banner}
use livechat.Models.{Tenant}
use livechat.Visitor.Session.{find_by_subject}
use livechat.Consent.Policy.{ExplicitConsent, EffectiveConsentState}
use livechat.Consent.Policy.Bounds.{decide-denied}
use livechat.Consent.Records.{ConsentStore}
use livechat.Consent.Service.{DecideAndRecordParams, state_of}
use livechat.Consent.Service.Banner.{resolve_state-withdrawn}
use livechat.Consent.Service.Choices.{Before, decide_and_record-cases}
use livechat.Request.{Request, CookieOptions, resolve_active_tenant}
use livechat.Gate.{Deps, Fresh, keyed, decided}
use livechat.Gate.Banner.{BannerBody, banner_params, post_withdraw}
use livechat.Gate.Loads.{PageLoad, IsBy, load_all, AllUntracked, load_all-untracked}
use livechat.Gate.Untracked.{Unique, Denied, forget_subject-Denied}
use livechat.Gate.Enforced.{
  state_after, enforced, enforced-gone, record_banner_decision-known,
  record_banner_decision-unknown,
}

module _ (deps : Deps) (fresh : Fresh) (req : Request) where
  pub state_after-denied :
      (params : DecideAndRecordParams) (db : ConsentStore)
      → params.explicit_consent
        ≡ some (record { functional = none; presence = some denied; analytics = some denied })
      → (state_after deps fresh req params db).purposes.presence ≡ denied
  unfolding state_of
  state_after-denied params db withdraws =
      state_after-state_of ∙ (decide-denied _ params.gpc _ (ground arith) (ground arith)).0
    where
      state_after-state_of :
          (state_after deps fresh req params db).purposes.presence
          ≡ (state_of deps.geo.to_upper_case (keyed deps) params db).purposes.presence
      state_after-state_of =
          elim (decide_and_record-cases deps.geo.to_upper_case (keyed deps) fresh.now
            fresh.record_id params db) [
              | inl (previous, flag, skip, e) ↦ ap (λ r. r.0.1.purposes.presence) e
              | inr (write, made, rows, tables) ↦ ap (λ r. r.1.purposes.presence) made
            ]

  -- What a withdrawal leaves.
  abbrev pub IsWithdrawn : String → ConsentStore → Type 0
  IsWithdrawn subject_key db =
      (find_by_subject subject_key db.tables ≡ none) × Denied deps subject_key db

  withdrawal-enforced :
      (params : DecideAndRecordParams) (db : ConsentStore)
      → params.explicit_consent
        ≡ some (record { functional = none; presence = some denied; analytics = some denied })
      → is_banner params.source ≡ true
      → params.skip_if_unchanged ≡ false
      → Before fresh.now db
      → Unique deps params.subject_key db.tables
      → IsWithdrawn params.subject_key (enforced deps fresh req params db)
  withdrawal-enforced params db withdraws shown always older unique =
      let off = state_after-denied params db withdraws in
      (
        enforced-gone deps fresh req params db unique off,
        rw off (
            forget_subject-Denied deps params.subject_key (decided deps fresh req params db).1
              (λ country region opt_out.
                (resolve_state-withdrawn deps.geo.to_upper_case (keyed deps) fresh.now
                  fresh.record_id params db country region opt_out withdraws shown always
                  older).0)),
      )

  post_withdraw-IsWithdrawn :
      (subject_key : String) (tenants : List Tenant) (body : BannerBody) (db : ConsentStore)
      (made : EffectiveConsentState × Option CookieOptions)
      → IsBy deps subject_key fresh req
      → Unique deps subject_key db.tables
      → Before fresh.now db
      → (post_withdraw deps fresh req tenants body db).0 ≡ ok made
      → IsWithdrawn subject_key (post_withdraw deps fresh req tenants body db).1
  unfolding post_withdraw
  post_withdraw-IsWithdrawn subject_key tenants body db made (who, presented, own) unique older e =
      elim (Result-cases (resolve_active_tenant body.tenant_key tenants)) [
        | inl (x, unknown) ↦ absurd (
            refused (
              sym (
                ap (λ r. r.0)
                  (record_banner_decision-unknown deps fresh req tenants body chosen
                    (some withdrawn) db unknown))
              ∙ e))
        | inr (tenant, known) ↦
            (let params =
                banner_params deps fresh req body tenant.id who.subject_key chosen
                  (some withdrawn) in
              let step =
                record_banner_decision-known deps fresh req tenants body chosen (some withdrawn)
                  tenant who db known presented in
              subst (λ k. IsWithdrawn k (post_withdraw deps fresh req tenants body db).1) own
                (subst (λ r. IsWithdrawn who.subject_key r.1) (sym step)
                  (withdrawal-enforced params db refl refl refl older
                    (subst (λ k. Unique deps k db.tables) (sym own) unique))))
      ]
    where
      chosen : ExplicitConsent
      chosen = record { functional = none; presence = some denied; analytics = some denied }

      refused : {x : ApiError} → ¬ (err x ≡ ok made)
      refused e = cc

  -- Withdrawing is for good: after a visitor's withdrawal no session of the visitor is left, and
  -- whatever pages they load afterwards, in any tenant, from any place and with any identity token,
  -- none of these page loads writes to the tables of visitors and chats or answers with a session.
  pub post_withdraw-untracked :
      (subject_key : String) (tenants : List Tenant) (body : BannerBody) (loads : List PageLoad)
      (db : ConsentStore) (made : EffectiveConsentState × Option CookieOptions)
      → IsBy deps subject_key fresh req
      → Unique deps subject_key db.tables
      → Before fresh.now db
      → (post_withdraw deps fresh req tenants body db).0 ≡ ok made
      → All (λ p. IsBy deps subject_key p.fresh p.req) loads
      → (let after = (post_withdraw deps fresh req tenants body db).1 in
          (find_by_subject subject_key after.tables ≡ none)
          × ((load_all deps subject_key loads after).tables ≡ after.tables)
          × AllUntracked deps subject_key loads after)
  post_withdraw-untracked subject_key tenants body loads db made by unique older e own =
      let after = (post_withdraw deps fresh req tenants body db).1 in
      let (gone, still) =
        post_withdraw-IsWithdrawn subject_key tenants body db made by unique older e in
      let (tables, untracked) = load_all-untracked deps subject_key loads after own still in
      (gone, tables, untracked)
