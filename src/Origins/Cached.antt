-- ===== src/Origins/Cached.antt =====
-- api/src/middlewares/cors.ts: the cache of origin decisions.
use livechat.Prelude.{
  ℕ, suc, ◌+◌, ◌≤◌, ◌<◌, String, ◌≡◌, refl, ap, ◌∙◌, inl, inr, Bool, true, not, ◌&&◌, Option, none,
  some, List, [], ◌∷◌, map, ◌⊎◌, arith, eq_iff, leb, length, length-append, any, find, find-All,
  find-holds, update, All, All-append, update-All, Bool-cases, if◌then◌else◌,
}
use livechat.Models.{Tenant}
use livechat.Origins.{
  Entry, Cache, entry_of, drop_oldest, put, cache_origin_decision, allowed_anywhere, unexpired,
  is_known_widget_origin, known_answer,
}

-- Every entry holds the answer of the tenants' table.
abbrev pub Exact : List Tenant → Cache → Type 0
Exact tenants = All (λ e. e.allowed ≡ allowed_anywhere e.origin tenants)

length-update :
    (p : Entry → Bool) (f : Entry → Entry) (es : Cache) → length (update p f es) ≡ length es
unfolding update
length-update p f [] = refl
length-update p f (e ∷ es) = ap suc (length-update p f es)

All-drop_oldest : (P : Entry → Type 0) (es : Cache) → All P es → All P (drop_oldest es)
All-drop_oldest P [] h = tt
All-drop_oldest P (e ∷ es) (p, h) = h

put-All : (P : Entry → Type 0) (e : Entry) (es : Cache) → P e → All P es → All P (put e es)
put-All P e es p h = elim (Bool-cases (any (entry_of e.origin) es)) [
  | inl there ↦ rw there (update-All P (entry_of e.origin) (λ _. e) es (λ _ _ _. p) h)
  | inr new ↦ rw new (All-append P es (e ∷ []) h (p, tt))
]

put-length :
    (e : Entry) (es : Cache)
    → length (put e es) ≡ (if any (entry_of e.origin) es then length es else suc (length es))
put-length e es = elim (Bool-cases (any (entry_of e.origin) es)) [
  | inl there ↦ rw there (length-update (entry_of e.origin) (λ _. e) es)
  | inr new ↦ rw new (omega (arith, length-append es (e ∷ [])))
]

module _ (now : ℕ) (origin : String) (tenants : List Tenant) where
  full : Cache → Bool
  full cache = not (any (entry_of origin) cache) && leb 10000 (length cache)

  entry : Bool → Entry
  entry allowed = record { origin = origin; allowed = allowed; expires_at = now + 60000 }

  kept : Cache → Cache
  unfolding full
  kept cache = if full cache then drop_oldest cache else cache

  kept-All : (P : Entry → Type 0) (cache : Cache) → All P cache → All P (kept cache)
  unfolding kept
  kept-All P cache h = elim (Bool-cases (full cache)) [
    | inl e ↦ rw e (All-drop_oldest P cache h)
    | inr e ↦ rw e h
  ]

  drop_oldest-lt : (cache : Cache) → length cache ≤ 10000 → length (drop_oldest cache) < 10000
  drop_oldest-lt [] h = omega arith
  drop_oldest-lt (e ∷ es) h = omega arith

  -- A decision is put in a cache that still has room, or that holds the origin already.
  put-le :
      (allowed : Bool) (cache : Cache)
      → length cache ≤ 10000
      → (length cache < 10000) ⊎ (any (entry_of origin) cache ≡ true)
      → length (put (entry allowed) cache) ≤ 10000
  unfolding entry
  put-le allowed cache h room = elim (Bool-cases (any (entry_of origin) cache)) [
    | inl there ↦ rw (put-length (entry allowed) cache) (rw there h)
    | inr new ↦ rw (put-length (entry allowed) cache) (rw new (ground arith))
  ]

  cache_origin_decision-le :
      (allowed : Bool) (cache : Cache)
      → length cache ≤ 10000
      → length (cache_origin_decision origin allowed now cache) ≤ 10000
  unfolding cache_origin_decision kept full entry
  cache_origin_decision-le allowed cache h = elim (Bool-cases (full cache)) [
    | inl evict ↦ rw evict (
        let small = drop_oldest-lt cache h in
        put-le allowed (drop_oldest cache) (omega arith) (inl small))
    | inr keep ↦ rw keep (put-le allowed cache h (ground arith))
  ]

  cache_origin_decision-Exact :
      (cache : Cache)
      → Exact tenants cache
      → Exact tenants (cache_origin_decision origin (allowed_anywhere origin tenants) now cache)
  unfolding cache_origin_decision kept full entry
  cache_origin_decision-Exact cache h =
      put-All _ (entry (allowed_anywhere origin tenants)) (kept cache) refl (kept-All _ cache h)

  unexpired-some : (o : Option Entry) {e : Entry} → unexpired now o ≡ some e → o ≡ some e
  unexpired-some none e = ground arith
  unexpired-some (some x) e = ground arith

  known_answer-Exact :
      (cache : Cache) (o : Option Entry)
      → Exact tenants cache
      → ((e : Entry) → o ≡ some e → e.allowed ≡ allowed_anywhere origin tenants)
      → ((known_answer now origin tenants cache o).0 ≡ allowed_anywhere origin tenants)
        × Exact tenants (known_answer now origin tenants cache o).1
  unfolding known_answer
  known_answer-Exact cache none h k = (refl, cache_origin_decision-Exact cache h)
  known_answer-Exact cache (some e) h k = (k e refl, h)

  pub is_known_widget_origin-Exact :
      (cache : Cache)
      → Exact tenants cache
      → ((is_known_widget_origin now origin tenants cache).0 ≡ allowed_anywhere origin tenants)
        × Exact tenants (is_known_widget_origin now origin tenants cache).1
  unfolding is_known_widget_origin
  is_known_widget_origin-Exact cache h =
      known_answer-Exact cache (unexpired now (find (entry_of origin) cache)) h (λ e hit.
        let found = unexpired-some (find (entry_of origin) cache) hit in
        find-All _ (entry_of origin) cache found h
        ∙ ap (λ o. allowed_anywhere o tenants)
            ((eq_iff e.origin origin).0 (find-holds (entry_of origin) cache found)))

  known_answer-le :
      (cache : Cache) (o : Option Entry)
      → length cache ≤ 10000
      → length (known_answer now origin tenants cache o).1 ≤ 10000
  unfolding known_answer
  known_answer-le cache none h = cache_origin_decision-le (allowed_anywhere origin tenants) cache h
  known_answer-le cache (some e) h = h

  is_known_widget_origin-le :
      (cache : Cache)
      → length cache ≤ 10000
      → length (is_known_widget_origin now origin tenants cache).1 ≤ 10000
  unfolding is_known_widget_origin
  is_known_widget_origin-le cache h =
      known_answer-le cache (unexpired now (find (entry_of origin) cache)) h

-- Lookups of some origins at some instants, one after the other, with their answers.
abbrev pub look_up : List Tenant → List (ℕ × String) → Cache → List Bool × Cache
look_up tenants [] cache = ([], cache)
look_up tenants ((now, origin) ∷ rest) cache =
    let (allowed, next) = is_known_widget_origin now origin tenants cache in
    let (answers, last) = look_up tenants rest next in (allowed ∷ answers, last)

module _ (tenants : List Tenant) where
  pub look_up-Exact :
      (asked : List (ℕ × String)) (cache : Cache)
      → Exact tenants cache
      → (look_up tenants asked cache).0 ≡ map (λ q. allowed_anywhere q.1 tenants) asked
  look_up-Exact [] cache h = refl
  look_up-Exact ((now, origin) ∷ rest) cache h =
      let (one, kept) = is_known_widget_origin-Exact now origin tenants cache h in
      cong2 one (look_up-Exact rest (is_known_widget_origin now origin tenants cache).1 kept)
    where
      cong2 : {a b : Bool} {xs ys : List Bool} → a ≡ b → xs ≡ ys → a ∷ xs ≡ b ∷ ys
      cong2 p q = cc

  -- The cache never holds more than 10 000 decisions, whatever origins are asked for.
  pub look_up-le :
      (asked : List (ℕ × String)) (cache : Cache)
      → length cache ≤ 10000
      → length (look_up tenants asked cache).1 ≤ 10000
  look_up-le [] cache h = h
  look_up-le ((now, origin) ∷ rest) cache h =
      look_up-le rest (is_known_widget_origin now origin tenants cache).1
        (is_known_widget_origin-le now origin tenants cache h)
