-- ===== src/Presence/Reachable.antt =====
-- api/src/services/presence-service.ts: who counts as reachable, and what the cleanup changes.
use livechat.Prelude.{
  ℕ, ◌+◌, ◌*◌, ◌<◌, String, ◌≡◌, refl, sym, ap, ◌∙◌, ◌⊎◌, inl, inr, Bool, true, false, not, ◌&&◌,
  ◌||◌, Option, List, [], ◌∷◌, ◌++◌, arith, eq_iff, ◌==◌, any, any-append, filter, includes, All,
  Bool-cases,
}
use livechat.Presence.Hours.{SupportHours, Calendar, is_within_support_hours}
use livechat.Presence.{
  available, Redis, set_at, srem, global_staff_tenant, is_live, members_of, prune,
  any_staff_available, set_availability, touch_connection,
}

includes_last : (x : String) (xs : List String) → includes x (xs ++ x ∷ []) ≡ true
includes_last x [] = ground (arith, eq_iff x x)
includes_last x (y ∷ xs) = ground (arith, includes_last x xs)

module _ (p : String → Bool) where
  includes-any :
      (x : String) (xs : List String) → includes x xs ≡ true → p x ≡ true → any p xs ≡ true
  includes-any x [] e h = ground arith
  includes-any x (y ∷ xs) e h = elim (Bool-cases (x == y)) [
    | inl same ↦ (let q = ap p (sym ((eq_iff x y).0 same)) ∙ h in ground arith)
    | inr other ↦ ground (arith, includes-any x xs)
  ]

  includes-All :
      (x : String) (xs : List String)
      → All (λ y. p y ≡ false) xs
      → includes x xs ≡ true
      → p x ≡ false
  includes-All x [] h e = ground arith
  includes-All x (y ∷ xs) (k, h) e = elim (Bool-cases (x == y)) [
    | inl same ↦ ap p ((eq_iff x y).0 same) ∙ k
    | inr other ↦ includes-All x xs h (ground arith)
  ]

  any-new :
      (xs ys : List String)
      → (any p xs || any p (filter (λ m. not (includes m xs)) ys)) ≡ (any p xs || any p ys)
  any-new xs [] = refl
  any-new xs (y ∷ ys) = ground (arith, any-new xs ys, includes-any y xs)

  any-srem : (dead xs : List String) → All (λ d. p d ≡ false) dead → any p (srem dead xs) ≡ any p xs
  any-srem dead [] h = refl
  any-srem dead (x ∷ xs) h = ground (arith, any-srem dead xs h, includes-All x dead h)

  any-set_at :
      (key k : String) (xs : List String) (f : String → List String)
      → any p xs ≡ any p (f key)
      → any p (set_at key xs f k) ≡ any p (f k)
  any-set_at key k xs f e = elim (Bool-cases (k == key)) [
    | inl here ↦ rw here (e ∙ ap (λ j. any p (f j)) (sym ((eq_iff k key).0 here)))
    | inr there ↦ rw there refl
  ]

  any-members_of :
      (tenant_id : String) (r : Redis)
      → any p (members_of tenant_id r)
        ≡ (any p (r.available_set tenant_id) || any p (r.available_set global_staff_tenant))
  any-members_of tenant_id r =
      any-append p (r.available_set tenant_id) (
        filter (λ m. not (includes m (r.available_set tenant_id)))
          (r.available_set global_staff_tenant))
      ∙ any-new (r.available_set tenant_id) (r.available_set global_staff_tenant)

  any-prune :
      (tenant_id k : String) (dead : List String) (r : Redis)
      → All (λ d. p d ≡ false) dead
      → any p ((prune tenant_id dead r).available_set k) ≡ any p (r.available_set k)
  unfolding prune
  any-prune tenant_id k dead r h =
      let own = set_at tenant_id (srem dead (r.available_set tenant_id)) r.available_set in
      any-set_at global_staff_tenant k (srem dead (own global_staff_tenant)) own
        (any-srem dead (own global_staff_tenant) h)
      ∙ any-set_at tenant_id k (srem dead (r.available_set tenant_id)) r.available_set
          (any-srem dead (r.available_set tenant_id) h)

  dead-All : (xs : List String) → All (λ d. p d ≡ false) (filter (λ m. not (p m)) xs)
  dead-All [] = tt
  dead-All (x ∷ xs) = ground (arith, dead-All xs)

  members_of-prune :
      (tenant_id other : String) (dead : List String) (r : Redis)
      → All (λ d. p d ≡ false) dead
      → any p (members_of other (prune tenant_id dead r)) ≡ any p (members_of other r)
  members_of-prune tenant_id other dead r h =
      any-members_of other (prune tenant_id dead r)
      ∙ ap (λ b. b || any p ((prune tenant_id dead r).available_set global_staff_tenant))
          (any-prune tenant_id other dead r h)
      ∙ ap (λ b. any p (r.available_set other) || b)
          (any-prune tenant_id global_staff_tenant dead r h)
      ∙ sym (any-members_of other r)

is_live-prune :
    (now : ℕ) (tenant_id : String) (dead : List String) (r : Redis)
    → is_live now (prune tenant_id dead r) ≡ is_live now r
unfolding prune
is_live-prune now tenant_id dead r = refl

module _ (lib : Calendar) where
  asked :
      (now : ℕ) (hours : Option SupportHours) (tenant_id : String) (r : Redis)
      → (any_staff_available lib now hours tenant_id r).0 ≡ (
          is_within_support_hours lib hours (now * 1000)
          && any (is_live now r) (members_of tenant_id r))
  unfolding any_staff_available
  asked now hours tenant_id r = elim (Bool-cases (is_within_support_hours lib hours (now * 1000))) [
    | inl within ↦ rw within refl
    | inr closed ↦ rw closed refl
  ]

  left :
      (now : ℕ) (hours : Option SupportHours) (tenant_id : String) (r : Redis)
      → ((any_staff_available lib now hours tenant_id r).1 ≡ r)
        ⊎ ((any_staff_available lib now hours tenant_id r).1
            ≡ prune tenant_id (filter (λ m. not (is_live now r m)) (members_of tenant_id r)) r)
  unfolding any_staff_available
  left now hours tenant_id r = elim (Bool-cases (is_within_support_hours lib hours (now * 1000))) [
    | inl within ↦ inr (rw within refl)
    | inr closed ↦ inl (rw closed refl)
  ]

  asked-prune :
      (now : ℕ) (hours : Option SupportHours) (tenant_id other : String) (dead : List String)
      (r : Redis)
      → All (λ d. is_live now r d ≡ false) dead
      → (any_staff_available lib now hours other (prune tenant_id dead r)).0
        ≡ (any_staff_available lib now hours other r).0
  asked-prune now hours tenant_id other dead r h =
      asked now hours other (prune tenant_id dead r)
      ∙ ap
          (λ live.
            is_within_support_hours lib hours (now * 1000)
            && any live (members_of other (prune tenant_id dead r)))
          (is_live-prune now tenant_id dead r)
      ∙ ap (λ b. is_within_support_hours lib hours (now * 1000) && b)
          (members_of-prune (is_live now r) tenant_id other dead r h)
      ∙ sym (asked now hours other r)

  -- The cleanup that an availability question does on the way changes no answer: any tenant that asks
  -- afterwards at that instant is told what it would have been told without.
  pub any_staff_available-others :
      (now : ℕ) (hours hours' : Option SupportHours) (tenant_id other : String) (r : Redis)
      → (any_staff_available lib now hours' other
          (any_staff_available lib now hours tenant_id r).1).0
        ≡ (any_staff_available lib now hours' other r).0
  any_staff_available-others now hours hours' tenant_id other r =
      elim (left now hours tenant_id r) [
        | inl same ↦ ap (λ s. (any_staff_available lib now hours' other s).0) same
        | inr pruned ↦
            ap (λ s. (any_staff_available lib now hours' other s).0) pruned
            ∙ asked-prune now hours' tenant_id other
                (filter (λ m. not (is_live now r m)) (members_of tenant_id r)) r
                (dead-All (is_live now r) (members_of tenant_id r))
      ]

  set_availability-member :
      (now : ℕ) (user_id tenant_id : String) (r : Redis)
      → includes user_id
          ((set_availability now user_id tenant_id available r).available_set tenant_id)
        ≡ true
  unfolding set_availability touch_connection
  set_availability-member now user_id tenant_id r = ground (
    arith,
    eq_iff tenant_id tenant_id,
    eq_iff user_id user_id,
    includes_last user_id (r.available_set tenant_id),
  )

  set_availability-live :
      (now later : ℕ) (user_id tenant_id : String) (r : Redis)
      → later < now + 120
      → is_live later (set_availability now user_id tenant_id available r) user_id ≡ true
  unfolding set_availability touch_connection
  set_availability-live now later user_id tenant_id r soon = ground (arith, eq_iff user_id user_id)

  -- For two minutes after a staff member goes available support counts as available for the tenant exactly within its support hours.
  pub set_availability-reachable :
      (now later : ℕ) (hours : Option SupportHours) (user_id tenant_id : String) (r : Redis)
      → later < now + 120
      → (any_staff_available lib later hours tenant_id
          (set_availability now user_id tenant_id available r)).0
        ≡ is_within_support_hours lib hours (later * 1000)
  set_availability-reachable now later hours user_id tenant_id r soon =
      let r' = set_availability now user_id tenant_id available r in
      let here =
        includes-any (is_live later r') user_id (r'.available_set tenant_id)
          (set_availability-member now user_id tenant_id r)
          (set_availability-live now later user_id tenant_id r soon) in
      let counted = any-members_of (is_live later r') tenant_id r' in
      asked later hours tenant_id r' ∙ ground arith
