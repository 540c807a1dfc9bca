-- ===== src/Gate/Untracked.antt =====
-- api/src/routes/{visitor,privacy}.ts: while presence tracking is denied, no session is kept.
use livechat.ApiError.{Result, ok, err}
use livechat.Prelude.{
  String, ◌≡◌, refl, sym, ap, ◌∙◌, inl, inr, Bool, true, false, Option, none, some, [], ◌∷◌, arith,
  Option-cases, if◌then◌else◌,
}
use livechat.Shared.{denied, is_banner, ConsentSource}
use livechat.Models.{Tenant, VisitorSession, Store, destroy_sessions}
use livechat.Visitor.Session.{find_by_subject, forget_by_subject_key}
use livechat.Visitor.Session.Revoked.{Only, find_by_subject-gone}
use livechat.Consent.Records.{ConsentStore}
use livechat.Consent.Service.{DecideAndRecordParams, load_explicit_consent, resolve_state}
use livechat.Consent.Service.Unlinked.{load_explicit_consent-unlink}
use livechat.Consent.Service.Choices.{decide_and_record-cases, load_explicit_consent-default}
use livechat.Request.{Request, CookieOptions, ResolvedSubject, resolve_geo, detect_gpc}
use livechat.Gate.{
  Deps, Fresh, InitInput, InitResult, keyed, forget_subject, ids_of, decided, gate,
  ensure_session_for_init, page_load,
}

-- Tracking is denied to a subject, wherever it comes from.
abbrev pub Denied : Deps → String → ConsentStore → Type 0
Denied deps subject_key db =
    (country region : Option String) (opt_out : Bool)
    → (resolve_state deps.geo.to_upper_case (keyed deps) subject_key country region opt_out
        db).purposes.presence
      ≡ denied

module _ (deps : Deps) (subject_key : String) where
  pub Denied-same :
      (before after : ConsentStore)
      → load_explicit_consent subject_key after.consent_records
        ≡ load_explicit_consent subject_key before.consent_records
      → Denied deps subject_key before
      → Denied deps subject_key after
  unfolding resolve_state
  Denied-same before after e h country region opt_out = rw e (h country region opt_out)

  -- At most one session has the subject key.
  abbrev pub Unique : Store → Type 0
  Unique db =
      (s : VisitorSession) → find_by_subject subject_key db ≡ some s → Only subject_key s.id db

  forgotten-none :
      (db : Store)
      → find_by_subject subject_key db ≡ none
      → (forget_by_subject_key subject_key db).1 ≡ db
  unfolding forget_by_subject_key
  forgotten-none db e = ground arith

  forgotten-some :
      (db : Store) {s : VisitorSession}
      → find_by_subject subject_key db ≡ some s
      → (forget_by_subject_key subject_key db).1 ≡ destroy_sessions (s.id ∷ []) db
  unfolding forget_by_subject_key
  forgotten-some db e = ground arith

  forget_by_subject_key-gone :
      (db : Store)
      → Unique db
      → find_by_subject subject_key (forget_by_subject_key subject_key db).1 ≡ none
  forget_by_subject_key-gone db unique = elim (Option-cases (find_by_subject subject_key db)) [
    | inl gone ↦ ap (find_by_subject subject_key) (forgotten-none db gone) ∙ gone
    | inr (s, found) ↦
        ap (find_by_subject subject_key) (forgotten-some db found)
        ∙ find_by_subject-gone subject_key s.id db (unique s found)
  ]

  pub forget_subject-gone :
      (db : ConsentStore)
      → Unique db.tables
      → find_by_subject subject_key (forget_subject subject_key db).1.tables ≡ none
  unfolding forget_subject
  forget_subject-gone db unique = forget_by_subject_key-gone db.tables unique

  pub forget_subject-Denied :
      (db : ConsentStore)
      → Denied deps subject_key db
      → Denied deps subject_key (forget_subject subject_key db).1
  unfolding forget_subject
  forget_subject-Denied db h =
      Denied-same db (forget_subject subject_key db).1
        (load_explicit_consent-unlink (ids_of (find_by_subject subject_key db.tables)) subject_key
          db.consent_records)
        h

module _ (deps : Deps) (fresh : Fresh) (req : Request) where
  pub decided-tables :
      (params : DecideAndRecordParams) (db : ConsentStore)
      → (decided deps fresh req params db).1.tables ≡ db.tables
  decided-tables params db =
      elim (decide_and_record-cases deps.geo.to_upper_case (keyed deps) fresh.now fresh.record_id
        params db) [
          | inl (previous, flag, skip, e) ↦ ap (λ r. r.1.tables) e
          | inr (write, made, rows, tables) ↦ tables
        ]

  page_load-default :
      (opt_out : Bool)
      → is_banner (if opt_out then ConsentSource.gpc else ConsentSource.default) ≡ false
  page_load-default true = refl
  page_load-default false = refl

  session_of : Result (InitResult × Option CookieOptions) → Option String
  session_of (ok made) = made.0.session_id
  session_of (err e) = none

  -- The part of a page load after the checks of its input.
  pub gate-untracked :
      (body : InitInput) (tenant : Tenant) (sub : Option String) (subject : ResolvedSubject)
      (db : ConsentStore)
      → Denied deps subject.subject_key db
      → ((gate deps fresh req body tenant sub subject db).1.tables ≡ db.tables)
        × Denied deps subject.subject_key (gate deps fresh req body tenant sub subject db).1
        × ((made : InitResult × Option CookieOptions)
            → (gate deps fresh req body tenant sub subject db).0 ≡ ok made
            → made.0.session_id ≡ none)
  unfolding gate ensure_session_for_init session_of
  gate-untracked body tenant sub subject db h =
      let geo = resolve_geo deps.geo deps.geo_env req in
      let params =
        page_load deps fresh req tenant.id subject.subject_key none geo (detect_gpc req body.gpc) in
      rw (h geo.country geo.region (detect_gpc req body.gpc)) (
        decided-tables params db,
        Denied-same deps subject.subject_key db (decided deps fresh req params db).1
            (load_explicit_consent-default deps.geo.to_upper_case (keyed deps) fresh.now
              fresh.record_id params db subject.subject_key
              (page_load-default (detect_gpc req body.gpc)))
            h,
        λ made e. sym (ap session_of e),
      )
