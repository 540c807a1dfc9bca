-- ===== src/Prelude/Order.antt =====
-- ORDER BY on a list of rows, by a number of each row. Rows with equal keys come in the order of
-- insertion; in a descending `findOne` the last of them is taken. (SQL leaves their order open.)
use mathlib.Core.Path.{◌≡◌, refl}
use mathlib.Core.Logic.{inl, inr}
use mathlib.Core.Bool.{Bool}
use mathlib.Core.Option.{Option, none, some}
use mathlib.Core.List.{List, [], ◌∷◌, ◌++◌}
use Prim.Native.Nat.{ℕ, ◌≤◌}
use native.Mathlib.Omega.{arith}
use livechat.Prelude.Tests.{if◌then◌else◌, leb, Option-cases}
use livechat.Prelude.Lists.{All}

module _ {ℓ} {A : Type ℓ} where
  insert : (A → A → Bool) → A → List A → List A
  insert before x [] = x ∷ []
  insert before x (y ∷ ys) = if before x y then x ∷ y ∷ ys else y ∷ insert before x ys

  sort : (A → A → Bool) → List A → List A
  unfolding insert
  sort before [] = []
  sort before (x ∷ xs) = insert before x (sort before xs)

  -- `order: [[key, 'ASC']]`
  unfoldable pub order_asc : (A → ℕ) → List A → List A
  unfolding sort
  order_asc key = sort (λ x y. leb (key x) (key y))

  -- `order: [[key, 'DESC']]`
  unfoldable pub order_desc : (A → ℕ) → List A → List A
  unfolding sort
  order_desc key = sort (λ x y. leb (key y) (key x))

  abbrev pub later : (A → ℕ) → A → Option A → Option A
  later key x none = some x
  later key x (some y) = if leb (key x) (key y) then some y else some x

  -- `findOne` with `order: [[key, 'DESC']]`
  unfoldable pub latest : (A → ℕ) → List A → Option A
  latest key [] = none
  latest key (x ∷ xs) = later key x (latest key xs)

  pub latest-eq-none : (key : A → ℕ) (xs : List A) → latest key xs ≡ none → xs ≡ []
  unfolding latest
  latest-eq-none key [] e = refl
  latest-eq-none key (x ∷ xs) e = ground arith

  All-le_trans :
      (key : A → ℕ) (m n : ℕ) (xs : List A)
      → m ≤ n
      → All (λ x. key x ≤ m) xs
      → All (λ x. key x ≤ n) xs
  All-le_trans key m n [] h k = tt
  All-le_trans key m n (x ∷ xs) h (k, ks) = (omega arith, All-le_trans key m n xs h ks)

  -- The row that a descending `findOne` takes has the greatest key.
  pub latest-le :
      (key : A → ℕ) (xs : List A) {a : A} → latest key xs ≡ some a → All (λ x. key x ≤ key a) xs
  unfolding latest
  latest-le key [] e = tt
  latest-le key (x ∷ xs) {a} e = elim (Option-cases (latest key xs)) [
    | inl alone ↦ rw (latest-eq-none key xs alone) (ground arith, tt)
    | inr (y, found) ↦
        (ground arith, All-le_trans key (key y) (key a) xs (ground arith) (latest-le key xs found))
  ]

  -- A row with the greatest key, inserted last, is the one that is taken.
  pub latest-append :
      (key : A → ℕ) (xs : List A) (r : A)
      → All (λ x. key x ≤ key r) xs
      → latest key (xs ++ r ∷ []) ≡ some r
  unfolding latest
  latest-append key [] r h = refl
  latest-append key (x ∷ xs) r (h, hs) = ground (arith, latest-append key xs r hs)

module _ {ℓ κ} {A : Type ℓ} (P : A → Type κ) where
  insert-All :
      (before : A → A → Bool) (x : A) (ys : List A) → P x → All P ys → All P (insert before x ys)
  unfolding insert
  insert-All before x [] p h = (p, tt)
  insert-All before x (y ∷ ys) p (q, h) = ground (arith, insert-All before x ys p h)

  sort-All : (before : A → A → Bool) (xs : List A) → All P xs → All P (sort before xs)
  unfolding sort
  sort-All before [] h = tt
  sort-All before (x ∷ xs) (p, h) = insert-All before x (sort before xs) p (sort-All before xs h)

  pub order_desc-All : (key : A → ℕ) (xs : List A) → All P xs → All P (order_desc key xs)
  unfolding order_desc
  order_desc-All key xs h = sort-All _ xs h

  pub latest-All : (key : A → ℕ) (xs : List A) {a : A} → latest key xs ≡ some a → All P xs → P a
  unfolding latest
  latest-All key [] e h = ground arith
  latest-All key (x ∷ xs) {a} e (p, h) = ground (arith, latest-All key xs {a = a})
