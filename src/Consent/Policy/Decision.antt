-- ===== src/Consent/Policy/Decision.antt =====
-- api/src/services/consent-policy.ts: what `decide` permits, and why.
use livechat.Prelude.{
  ◌≡◌, ◌≢◌, refl, ◌↔◌, ◌⊎◌, inl, inr, Bool, true, false, Option, none, some, arith, Memᴰ,
  All-lookup, All-filter, filter-Memᴰ, Bool-cases,
}
use livechat.Shared.{
  ConsentPurpose, PurposeDecision, granted, denied, Jurisdiction, eu, uk, us_ca, us, unknown,
  LegalBasis, PurposeState, is_granted,
}
use livechat.Consent.Policy.{
  opt_in, opt_out, rules, ExplicitConsent, choice, decision, decide_purpose, pick_legal_basis,
  decide, decide_one, asks_for, consent_purposes,
}

-- The reasons for which a purpose may be permitted.
pub data Permits (j : Jurisdiction) (gpc : Bool) (said : Option PurposeDecision)
    : ConsentPurpose → Type 0 where
  necessary : Permits j gpc said ConsentPurpose.functional
  agreed : {p : ConsentPurpose} → said ≡ some granted → Permits j gpc said p
  by_default :
      {p : ConsentPurpose}
      → gpc ≡ false
      → rules j p ≡ opt_out
      → said ≢ some denied
      → Permits j gpc said p

decide_purpose_sound :
    (j : Jurisdiction) (gpc : Bool) (said : Option PurposeDecision) (p : ConsentPurpose)
    → decide_purpose (rules j p) gpc said ≡ granted
    → Permits j gpc said p
unfolding decide_purpose rules
decide_purpose_sound j gpc said ConsentPurpose.functional e = necessary
decide_purpose_sound j gpc (some granted) p e = agreed refl
decide_purpose_sound us_ca false none p e = by_default refl refl (λ d. cc)
decide_purpose_sound us false none p e = by_default refl refl (λ d. cc)
decide_purpose_sound j gpc said p e = ground arith

decide_purpose_complete :
    (j : Jurisdiction) (gpc : Bool) (said : Option PurposeDecision) {p : ConsentPurpose}
    → Permits j gpc said p
    → decide_purpose (rules j p) gpc said ≡ granted
unfolding decide_purpose rules
decide_purpose_complete j gpc said necessary = refl
decide_purpose_complete j gpc said (agreed {p} e) = rw e (go j p)
  where
    go :
        (j : Jurisdiction) (p : ConsentPurpose)
        → decide_purpose (rules j p) gpc (some granted) ≡ granted
    go j ConsentPurpose.functional = refl
    go eu _ = ground arith
    go _ _ = ground arith
decide_purpose_complete j gpc said (by_default {p} e mode h) = ground arith

module _ (j : Jurisdiction) (gpc : Bool) (e : ExplicitConsent) where
  -- A purpose is permitted exactly for one of the reasons of `Permits`: it is strictly necessary,
  -- the visitor granted it, or there is no universal opt-out, the jurisdiction is opt-out for it and
  -- the visitor did not deny it.
  pub decide_iff :
      (p : ConsentPurpose)
      → (decision (decide j gpc e).purposes p ≡ granted) ↔ Permits j gpc (choice e p) p
  unfolding decide decide_one
  decide_iff ConsentPurpose.functional =
      (decide_purpose_sound j gpc _ _, decide_purpose_complete j gpc _)
  decide_iff ConsentPurpose.presence =
      (decide_purpose_sound j gpc _ _, decide_purpose_complete j gpc _)
  decide_iff ConsentPurpose.analytics =
      (decide_purpose_sound j gpc _ _, decide_purpose_complete j gpc _)

  asks_for_iff :
      (x : ConsentPurpose)
      → (asks_for j gpc e x ≡ true) ↔ ((rules j x ≡ opt_in) × (¬ Permits j gpc (choice e x) x))
  unfolding asks_for
  asks_for_iff x = (
    λ h. (
      ground arith,
      λ permitted. let on = decide_purpose_complete j gpc (choice e x) permitted in ground arith,
    ),
    λ (mode, refused). elim (Bool-cases (is_granted (decide_one j gpc e x))) [
      | inl on ↦ absurd (refused (decide_purpose_sound j gpc (choice e x) x (ground arith)))
      | inr off ↦ ground arith
    ],
  )

  listed : (x : ConsentPurpose) → Memᴰ x consent_purposes
  listed ConsentPurpose.functional = Memᴰ.head refl
  listed ConsentPurpose.presence = Memᴰ.tail (Memᴰ.head refl)
  listed ConsentPurpose.analytics = Memᴰ.tail (Memᴰ.tail (Memᴰ.head refl))

  -- The widget is asked to obtain consent for exactly the purposes that are opt-in in the
  -- jurisdiction and are not permitted.
  pub requires_opt_in_iff :
      (p : ConsentPurpose)
      → Memᴰ p (decide j gpc e).requires_opt_in
        ↔ ((rules j p ≡ opt_in) × (¬ Permits j gpc (choice e p) p))
  unfolding decide
  requires_opt_in_iff p = (
    λ m. (asks_for_iff p).0 (
        All-lookup (λ x. asks_for j gpc e x ≡ true) _ m
          (All-filter _ (asks_for j gpc e) consent_purposes
            ((λ h. h), ((λ h. h), ((λ h. h), tt))))),
    λ h. filter-Memᴰ (asks_for j gpc e) consent_purposes (listed p) ((asks_for_iff p).1 h),
  )

-- Why a basis may be recorded.
abbrev pub Justified : LegalBasis → Jurisdiction → Bool → ExplicitConsent → PurposeState → Type 0
Justified LegalBasis.consent j gpc e s =
    (gpc ≡ false)
    × (rules j ConsentPurpose.presence ≡ opt_in)
    × ((e.presence ≡ some granted) ⊎ (e.analytics ≡ some granted))
Justified LegalBasis.legitimate_interest j gpc e s =
    (gpc ≡ false)
    × (rules j ConsentPurpose.presence ≡ opt_out)
    × ((s.presence ≡ granted) ⊎ (s.analytics ≡ granted))
Justified LegalBasis.opt_out j gpc e s =
    (gpc ≡ true)
    ⊎ ((rules j ConsentPurpose.presence ≡ opt_out)
        × (e.presence ≡ some denied)
        × (e.analytics ≡ some denied))
Justified LegalBasis.withdrawn j gpc e s = ⊥
Justified LegalBasis.no_basis j gpc e s =
    (gpc ≡ false)
    × (rules j ConsentPurpose.presence ≡ opt_in)
    × (s.presence ≡ denied)
    × (s.analytics ≡ denied)

-- The recorded legal basis is the true one: `consent` only where the visitor granted a purpose in an
-- opt-in jurisdiction, `legitimate_interest` only where one runs by default in an opt-out one,
-- `opt_out` only under a universal opt-out or after both purposes were denied, `none` only where
-- nothing non-essential runs.
pub legal_basis-Justified :
    (j : Jurisdiction) (gpc : Bool) (e : ExplicitConsent)
    → Justified (decide j gpc e).legal_basis j gpc e (decide j gpc e).purposes
unfolding decide decide_one pick_legal_basis decide_purpose rules
legal_basis-Justified eu gpc e = ground arith
legal_basis-Justified uk gpc e = ground arith
legal_basis-Justified us_ca gpc e = ground arith
legal_basis-Justified us gpc e = ground arith
legal_basis-Justified unknown gpc e = ground arith
