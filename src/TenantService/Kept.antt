-- ===== src/TenantService/Kept.antt =====
-- api/src/services/tenant-service.ts: when an edit of a tenant's sites takes effect.
use livechat.ApiError.{ok}
use livechat.Prelude.{
  ℕ, String, ◌≡◌, inl, inr, Option, List, [], map, arith, find, update, find-holds, eq_iff, Bool,
  true, false, some, ◌∷◌, ap, ◌∙◌, sym, Bool-cases, Option-cases,
}
use livechat.Prelude.Action.{ok_injective}
use livechat.Models.{Tenant, tenant_by_id}
use livechat.Origins.{allowed_anywhere}
use livechat.Origins.Cached.{look_up, look_up-Exact}
use livechat.TenantService.{TenantStore, slug_taken, get_by_id, save, set_allowed_origins}

abbrev pub after_edit : String → Option (List String) → TenantStore → TenantStore
after_edit id origins db = (set_allowed_origins id origins db).1

find-saved :
    (p : Tenant → Bool) (new : Tenant) (ts : List Tenant) {t : Tenant}
    → p new ≡ true
    → find p ts ≡ some t
    → find p (update p (λ _. new) ts) ≡ some new
unfolding find update
find-saved p new [] hit e = ground arith
find-saved p new (x ∷ ts) {t} hit e = ground (arith, find-saved p new ts {t = t} hit)

set_allowed_origins-saved :
    (id : String) (origins : Option (List String)) (db : TenantStore) (t : Tenant)
    → find (tenant_by_id id) db.tenants ≡ some t
    → slug_taken t.id t.slug db.tenants ≡ false
    → set_allowed_origins id origins db ≡ (
      ok (record t { allowed_origins = origins }),
      record {
        tenants =
            update (tenant_by_id t.id) (λ _. record t { allowed_origins = origins }) db.tenants;
        origin_cache = [];
      },
    )
unfolding set_allowed_origins get_by_id save
set_allowed_origins-saved id origins db t found free = ground arith

-- The table holds the tenant that is answered, with the new sites.
stored :
    (id : String) (origins : Option (List String)) (db : TenantStore) (tenant : Tenant)
    → (set_allowed_origins id origins db).0 ≡ ok tenant
    → (find (tenant_by_id id) (set_allowed_origins id origins db).1.tenants ≡ some tenant)
      × (tenant.allowed_origins ≡ origins)
unfolding set_allowed_origins get_by_id save
stored id origins db tenant e = elim (Option-cases (find (tenant_by_id id) db.tenants)) [
  | inl gone ↦ ground arith
  | inr (t, found) ↦ elim (Bool-cases (slug_taken t.id t.slug db.tenants)) [
    | inl taken ↦ ground arith
    | inr free ↦
        let new : Tenant = record t { allowed_origins = origins } in
        let hit : tenant_by_id id t ≡ true = find-holds (tenant_by_id id) db.tenants found in
        let own : t.id ≡ id = ground (arith, eq_iff t.id id) in
        let kept = find-saved (tenant_by_id id) new db.tenants hit found in
        let made : tenant ≡ new =
          ok_injective
            (sym e ∙ ap (λ r. r.0) (set_allowed_origins-saved id origins db t found free)) in
        (
          ap (λ r. find (tenant_by_id id) r.1.tenants)
                (set_allowed_origins-saved id origins db t found free)
              ∙ ap (λ k. find (tenant_by_id id) (update (tenant_by_id k) (λ _. new) db.tenants)) own
              ∙ kept
              ∙ ap some (sym made),
          ap (λ r. r.allowed_origins) made,
        )
  ]
]

module _ (id : String) (origins : Option (List String)) (db : TenantStore) where
  set_allowed_origins-cache :
      (tenant : Tenant)
      → (set_allowed_origins id origins db).0 ≡ ok tenant
      → (after_edit id origins db).origin_cache ≡ []
  unfolding set_allowed_origins get_by_id save
  set_allowed_origins-cache tenant e = elim (Option-cases (find (tenant_by_id id) db.tenants)) [
    | inl gone ↦ ground arith
    | inr (t, found) ↦ elim (Bool-cases (slug_taken t.id t.slug db.tenants)) [
      | inl taken ↦ ground arith
      | inr free ↦ ground arith
    ]
  ]

  -- An edit of a tenant's sites is stored and, in the process that makes it, takes effect at once:
  -- whatever was cached before, and whatever sites this process is asked for afterwards, in any
  -- number and at any time while the tenants stay as they are, each gets the answer of the table with
  -- the new sites.
  pub set_allowed_origins-immediate :
      (tenant : Tenant) (asked : List (ℕ × String))
      → (set_allowed_origins id origins db).0 ≡ ok tenant
      → (find (tenant_by_id id) (after_edit id origins db).tenants ≡ some tenant)
        × (tenant.allowed_origins ≡ origins)
        × ((look_up
              (after_edit id origins db).tenants
              asked
              (after_edit id origins db).origin_cache).0
            ≡ map (λ q. allowed_anywhere q.1 (after_edit id origins db).tenants) asked)
  set_allowed_origins-immediate tenant asked e =
      let (saved, given) = stored id origins db tenant e in
      (
        saved,
        given,
        look_up-Exact (after_edit id origins db).tenants asked
            (after_edit id origins db).origin_cache (rw (set_allowed_origins-cache tenant e) tt),
      )
