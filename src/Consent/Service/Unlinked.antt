-- ===== src/Consent/Service/Unlinked.antt =====
-- api/src/services/consent-service.ts: what is left of a visitor's choices when a session is deleted.
use livechat.Prelude.{
  String, ◌≡◌, refl, ap, ◌∙◌, inl, inr, Option, none, some, List, [], ◌∷◌, map, filter, latest,
  later, leb, Bool-cases,
}
use mathlib.Core.Option
use livechat.Consent.Records.{ConsentRecord, unlink}
use livechat.Consent.Service.{banner_of, non_essential, load_explicit_consent}

-- Deleting sessions changes nobody's choices.
module _ (ids : List String) where
  filter-unlink :
      (subject_key : String) (rs : List ConsentRecord)
      → filter (banner_of subject_key) (map (unlink ids) rs)
        ≡ map (unlink ids) (filter (banner_of subject_key) rs)
  filter-unlink subject_key [] = refl
  filter-unlink subject_key (r ∷ rs) = elim (Bool-cases (banner_of subject_key r)) [
    | inl e ↦ rw (e, filter-unlink subject_key rs) refl
    | inr e ↦ rw (e, filter-unlink subject_key rs) refl
  ]

  later-unlink :
      (r : ConsentRecord) (o : Option ConsentRecord)
      → later (λ r. r.created_at) (unlink ids r) (Option.map (unlink ids) o)
        ≡ Option.map (unlink ids) (later (λ r. r.created_at) r o)
  later-unlink r none = refl
  later-unlink r (some s) = elim (Bool-cases (leb r.created_at s.created_at)) [
    | inl e ↦ rw e refl
    | inr e ↦ rw e refl
  ]

  latest-unlink :
      (rs : List ConsentRecord)
      → latest (λ r. r.created_at) (map (unlink ids) rs)
        ≡ Option.map (unlink ids) (latest (λ r. r.created_at) rs)
  unfolding latest
  latest-unlink [] = refl
  latest-unlink (r ∷ rs) = rw (latest-unlink rs) (later-unlink r (latest (λ r. r.created_at) rs))

  non_essential-unlink :
      (o : Option ConsentRecord) → non_essential (Option.map (unlink ids) o) ≡ non_essential o
  non_essential-unlink none = refl
  non_essential-unlink (some r) = refl

  pub load_explicit_consent-unlink :
      (subject_key : String) (rs : List ConsentRecord)
      → load_explicit_consent subject_key (map (unlink ids) rs)
        ≡ load_explicit_consent subject_key rs
  unfolding load_explicit_consent
  load_explicit_consent-unlink subject_key rs =
      ap (λ found. non_essential (latest (λ r. r.created_at) found)) (filter-unlink subject_key rs)
      ∙ ap non_essential (latest-unlink (filter (banner_of subject_key) rs))
      ∙ non_essential-unlink _
