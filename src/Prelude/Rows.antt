-- ===== src/Prelude/Rows.antt =====
-- A table as the list of its rows, in the order of insertion.
use mathlib.Core.Path.{◌≡◌, refl}
use mathlib.Core.Bool.{Bool, true}
use mathlib.Core.Option
use mathlib.Core.Option.{Option, none, some}
use mathlib.Core.List.{List, [], ◌∷◌, ◌++◌}
use native.Mathlib.Omega.{arith}
use livechat.Prelude.Tests.{if◌then◌else◌}
use livechat.Prelude.Lists.{All}

module _ {ℓ} {A : Type ℓ} where
  -- The first row that passes the test: `findOne` with a `where`.
  unfoldable pub find : (A → Bool) → List A → Option A
  find p [] = none
  find p (x ∷ xs) = if p x then some x else find p xs

  -- An UPDATE of the rows that pass the test.
  unfoldable pub update : (A → Bool) → (A → A) → List A → List A
  update p f [] = []
  update p f (x ∷ xs) = (if p x then f x else x) ∷ update p f xs

  pub find-holds : (p : A → Bool) (xs : List A) {a : A} → find p xs ≡ some a → p a ≡ true
  unfolding find
  find-holds p [] e = ground arith
  find-holds p (x ∷ xs) {a} e = ground (arith, find-holds p xs {a = a})

  pub find-append :
      (p : A → Bool) (xs ys : List A) {a : A} → find p xs ≡ some a → find p (xs ++ ys) ≡ some a
  unfolding find
  find-append p [] ys e = ground arith
  find-append p (x ∷ xs) ys {a} e = ground (arith, find-append p xs ys {a = a})

  pub find-append_none :
      (p : A → Bool) (xs ys : List A) → find p xs ≡ none → find p (xs ++ ys) ≡ find p ys
  unfolding find
  find-append_none p [] ys e = refl
  find-append_none p (x ∷ xs) ys e = ground (arith, find-append_none p xs ys)

  -- An update that changes no row's answer to `q` acts on the row that `q` finds.
  pub find-update :
      (q p : A → Bool) (f : A → A) (xs : List A)
      → ((a : A) → q (f a) ≡ q a)
      → find q (update p f xs) ≡ Option.map (λ a. if p a then f a else a) (find q xs)
  unfolding find update
  find-update q p f [] keep = refl
  find-update q p f (x ∷ xs) keep = ground (arith, keep x, find-update q p f xs keep)

module _ {ℓ κ} {A : Type ℓ} (P : A → Type κ) (p : A → Bool) where
  pub find-All : (xs : List A) {a : A} → find p xs ≡ some a → All P xs → P a
  unfolding find
  find-All [] e h = ground arith
  find-All (x ∷ xs) {a} e (q, h) = ground (arith, find-All xs {a = a})

  pub update-All :
      (f : A → A) (xs : List A)
      → ((a : A) → p a ≡ true → P a → P (f a))
      → All P xs
      → All P (update p f xs)
  unfolding update
  update-All f [] k h = tt
  update-All f (x ∷ xs) k (q, h) = ground (arith, k x, update-All f xs k h)
