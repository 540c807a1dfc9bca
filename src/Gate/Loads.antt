-- ===== src/Gate/Loads.antt =====
-- api/src/routes/{visitor,privacy}.ts: page loads while presence tracking is denied.
use livechat.ApiError.{Result, ok, err, ApiError}
use livechat.Prelude.Action.{Result-cases}
use livechat.Prelude.{
  String, ◌≡◌, refl, sym, subst, ◌∙◌, inl, inr, Option, none, List, [], ◌∷◌, arith, All,
}
use livechat.Models.{Tenant}
use livechat.Visitor.Session.{verify_identity_token}
use livechat.Consent.Records.{ConsentStore}
use livechat.Request.{
  Request, CookieOptions, ResolvedSubject, resolve_subject, resolve_active_tenant,
}
use livechat.Gate.{Deps, Fresh, InitInput, InitResult, gate, run_session_init}
use livechat.Gate.Untracked.{Denied, gate-untracked}

-- The calls of a visitor's page loads.
pub record PageLoad : Type 0 where
  pub fresh : Fresh
  pub req : Request
  pub tenants : List Tenant
  pub body : InitInput

module _ (deps : Deps) (subject_key : String) where
  -- The visitor of the request is the subject.
  abbrev pub IsBy : Fresh → Request → Type 0
  IsBy fresh req =
      (subject : ResolvedSubject) × (resolve_subject deps.cookie deps.session_env.cookie_secret
          deps.production fresh.handle_id req
        ≡ ok subject)
      × (subject.subject_key ≡ subject_key)

  abbrev pub load :
      PageLoad → ConsentStore → Result (InitResult × Option CookieOptions) × ConsentStore
  load p db = run_session_init deps p.fresh p.req p.tenants p.body db

  -- The tables after some page loads, and the sessions that they answered with.
  abbrev pub load_all : List PageLoad → ConsentStore → ConsentStore
  load_all [] db = db
  load_all (p ∷ ps) db = load_all ps (load p db).1

  abbrev pub AllUntracked : List PageLoad → ConsentStore → Type 0
  AllUntracked [] db = Unit
  AllUntracked (p ∷ ps) db =
      ((made : InitResult × Option CookieOptions)
        → (load p db).0 ≡ ok made
        → made.0.session_id ≡ none)
      × AllUntracked ps (load p db).1

  -- What a call that tracks nobody leaves.
  abbrev pub Untracked :
      ConsentStore → Result (InitResult × Option CookieOptions) × ConsentStore → Type 0
  Untracked db r =
      (r.1.tables ≡ db.tables)
      × Denied deps subject_key r.1
      × ((made : InitResult × Option CookieOptions) → r.0 ≡ ok made → made.0.session_id ≡ none)

  load-Untracked :
      (p : PageLoad) (db : ConsentStore)
      → IsBy p.fresh p.req
      → Denied deps subject_key db
      → Untracked db (load p db)
  unfolding run_session_init
  load-Untracked p db (who, presented, own) h =
      elim (Result-cases (resolve_active_tenant p.body.tenant_key p.tenants)) [
        | inl (e, unknown) ↦ rw unknown (nothing e)
        | inr (tenant, known) ↦
            elim (Result-cases
              (verify_identity_token deps.jwt_verify p.body.identity_token tenant.embed_secret)) [
                | inl (e, forged) ↦ rw (known, forged) (nothing e)
                | inr (sub, signed) ↦ rw (known, signed, presented) (by_subject tenant sub who own)
              ]
      ]
    where
      nothing : (e : ApiError) → Untracked db (err e, db)
      nothing e = (refl, h, λ made e. ground arith)

      by_subject :
          (tenant : Tenant) (sub : Option String) (subject : ResolvedSubject)
          → subject.subject_key ≡ subject_key
          → Untracked db (gate deps p.fresh p.req p.body tenant sub subject db)
      by_subject tenant sub subject e =
          let (tables, still, none_made) =
            gate-untracked deps p.fresh p.req p.body tenant sub subject db
              (subst (λ k. Denied deps k db) (sym e) h) in
          (
            tables,
            subst (λ k. Denied deps k (gate deps p.fresh p.req p.body tenant sub subject db).1) e
                still,
            none_made,
          )

  pub load_all-untracked :
      (ps : List PageLoad) (db : ConsentStore)
      → All (λ p. IsBy p.fresh p.req) ps
      → Denied deps subject_key db
      → ((load_all ps db).tables ≡ db.tables) × AllUntracked ps db
  load_all-untracked [] db by h = (refl, tt)
  load_all-untracked (p ∷ ps) db (by, rest) h =
      let (tables, still, none_made) = load-Untracked p db by h in
      let (later_tables, later_none) = load_all-untracked ps (load p db).1 rest still in
      (later_tables ∙ tables, (none_made, later_none))
