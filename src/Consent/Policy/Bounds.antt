-- ===== src/Consent/Policy/Bounds.antt =====
-- api/src/services/consent-policy.ts: when unsure, the policy is the strict one.
use livechat.Prelude.{
  String, ◌≡◌, ◌≢◌, refl, ◌↔◌, inl, inr, Bool, true, false, Option, none, some, arith, eq_iff, ◌==◌,
  includes, Bool-cases,
}
use livechat.Shared.{
  ConsentPurpose, PurposeDecision, granted, denied, Jurisdiction, eu, uk, us_ca, us, unknown,
}
use livechat.Consent.Policy.{
  opt_out, rules, eu_eea, bucket, resolve_jurisdiction, ExplicitConsent, decision, decide,
  decide_one, decide_purpose,
}
use livechat.Consent.Policy.Decision.{Permits, necessary, agreed, by_default, decide_iff}

without_gpc :
    (j : Jurisdiction) (gpc : Bool) (said : Option PurposeDecision) (p : ConsentPurpose)
    → Permits j true said p
    → Permits j gpc said p
without_gpc j gpc said ConsentPurpose.functional h = necessary
without_gpc j gpc said p (agreed s) = agreed s
without_gpc j gpc said p (by_default t mode h) = cc

located :
    (j : Jurisdiction) (gpc : Bool) (said : Option PurposeDecision) (p : ConsentPurpose)
    → Permits unknown gpc said p
    → Permits j gpc said p
unfolding rules
located j gpc said ConsentPurpose.functional h = necessary
located j gpc said p (agreed s) = agreed s
located j gpc said ConsentPurpose.presence (by_default t mode h) = cc
located j gpc said ConsentPurpose.analytics (by_default t mode h) = cc

module _ (j : Jurisdiction) (gpc : Bool) (e : ExplicitConsent) (p : ConsentPurpose) where
  -- Whatever a universal opt-out leaves on would be on without it, and whatever is on for a visitor
  -- of unknown location is on in every jurisdiction: both only ever deny.
  pub strictest :
      (decision (decide j true e).purposes p ≡ granted
        → decision (decide j gpc e).purposes p ≡ granted)
      × (decision (decide unknown gpc e).purposes p ≡ granted
          → decision (decide j gpc e).purposes p ≡ granted)
  strictest = (
    λ h. (decide_iff j gpc e p).1 (without_gpc j gpc _ p ((decide_iff j true e p).0 h)),
    λ h. (decide_iff j gpc e p).1 (located j gpc _ p ((decide_iff unknown gpc e p).0 h)),
  )

us_not_eu : includes "US" eu_eea ≡ false
unfolding eu_eea
us_not_eu = refl

unknown_asks : rules unknown ConsentPurpose.presence ≢ opt_out
unfolding rules
unknown_asks e = cc

module _ (to_upper_case : String → String) where
  bucket-us :
      (cc : String) (region : Option String)
      → cc ≡ "US"
      → rules (bucket to_upper_case cc region) ConsentPurpose.presence ≡ opt_out
  unfolding bucket rules
  bucket-us cc region e = let f = us_not_eu in rw e (ground arith)

  bucket-us_inv :
      (cc : String) (region : Option String)
      → rules (bucket to_upper_case cc region) ConsentPurpose.presence ≡ opt_out
      → cc ≡ "US"
  unfolding bucket rules
  bucket-us_inv cc region h = ground (arith, eq_iff cc "US")

  resolve_given :
      (country : String) (region : Option String)
      → (country == "") ≡ false
      → resolve_jurisdiction to_upper_case (some country) region
        ≡ bucket to_upper_case (to_upper_case country) region
  unfolding resolve_jurisdiction
  resolve_given country region e = rw e refl

  -- Tracking is on by default only for a visitor whose country is the United States: a visitor of
  -- unknown, empty or any other country is asked first.
  pub opt_out_iff_us :
      (country region : Option String)
      → (rules (resolve_jurisdiction to_upper_case country region) ConsentPurpose.presence
          ≡ opt_out)
        ↔ ((cc : String) × (country ≡ some cc) × (cc ≢ "") × (to_upper_case cc ≡ "US"))
  unfolding resolve_jurisdiction
  opt_out_iff_us none region = (λ h. absurd (unknown_asks h), λ (cc, e, n, h). ground arith)
  opt_out_iff_us (some country) region = elim (Bool-cases (country == "")) [
    | inl empty ↦ (
      λ h. absurd (unknown_asks (ground arith)),
      λ (c, e, n, h). ground (arith, eq_iff country ""),
    )
    | inr given ↦ rw (resolve_given country region given) (
      λ h. (
        country,
        refl,
        (λ e. ground (arith, eq_iff country "")),
        bucket-us_inv (to_upper_case country) region h,
      ),
      λ (c, e, n, h). bucket-us (to_upper_case country) region (cc),
    )
  ]

-- A denial stands, wherever the visitor is.
pub decide-denied :
    (j : Jurisdiction) (gpc : Bool) (e : ExplicitConsent)
    → e.presence ≡ some denied
    → e.analytics ≡ some denied
    → ((decide j gpc e).purposes.presence ≡ denied) × ((decide j gpc e).purposes.analytics ≡ denied)
unfolding decide decide_one decide_purpose rules
decide-denied eu gpc e p a = ground arith
decide-denied uk gpc e p a = ground arith
decide-denied us_ca gpc e p a = ground arith
decide-denied us gpc e p a = ground arith
decide-denied unknown gpc e p a = ground arith
