-- ===== src/Prelude/Lists.antt =====
-- Lists searched by Boolean tests and measured by native numbers, under the library's names.
use Prim.Native.Nat.{ℕ, zero, suc, ◌+◌}
use mathlib.Core.Path.{◌≡◌, refl}
use mathlib.Core.Bool.{Bool, true, false, ◌&&◌, ◌||◌}
use mathlib.Core.List.{List, [], ◌∷◌, ◌++◌}
use mathlib.Core.Option.{Option, none, some}
use native.Mathlib.Omega.{arith}
use burkham_wickmont_operati.Prelude.Tests.{if◌then◌else◌, Bool-cases}
use mathlib.Core.Logic.{inl, inr}

module _ {ℓ} {A : Type ℓ} where
  abbrev pub length : List A → ℕ
  length [] = 0
  length (x ∷ xs) = suc (length xs)

  -- `Array.prototype.find`
  abbrev pub find : (A → Bool) → List A → Option A
  find p [] = none
  find p (x ∷ xs) = if p x then some x else find p xs

  -- `Array.prototype.filter`
  abbrev pub filter : (A → Bool) → List A → List A
  filter p [] = []
  filter p (x ∷ xs) = if p x then x ∷ filter p xs else filter p xs

  -- `Array.prototype.some`
  abbrev pub any : (A → Bool) → List A → Bool
  any p [] = false
  any p (x ∷ xs) = p x || any p xs

  abbrev pub all : (A → Bool) → List A → Bool
  all p [] = true
  all p (x ∷ xs) = p x && all p xs

  abbrev pub take : ℕ → List A → List A
  take zero xs = []
  take (suc n) [] = []
  take (suc n) (x ∷ xs) = x ∷ take n xs

  -- Every entry satisfies the predicate; computes to a tuple.
  abbrev pub All {κ} : (A → Type κ) → List A → Type κ
  All P [] = Unit
  All P (x ∷ xs) = P x × All P xs

  pub length-append : (xs ys : List A) → length (xs ++ ys) ≡ length xs + length ys
  length-append [] ys = omega arith
  length-append (x ∷ xs) ys = omega (arith, length-append xs ys)

  pub find_sat : (p : A → Bool) (xs : List A) {a : A} → find p xs ≡ some a → p a ≡ true
  find_sat p [] h = cc
  find_sat p (x ∷ xs) {a} h = elim (Bool-cases (p x)) [
    | inl e ↦ cc e
    | inr e ↦ find_sat p xs (rw e at h)
  ]

  -- `findFirst({ orderBy })`: the row that no later one comes before
  abbrev pub first_by : (A → A → Bool) → List A → Option A
  first_by before [] = none
  first_by before (x ∷ xs) = elim (first_by before xs) [
    | none ↦ some x
    | some y ↦ if before y x then some y else some x
  ]

  -- `update({ where, data })`
  abbrev pub update_where : (A → Bool) → (A → A) → List A → List A
  update_where p f [] = []
  update_where p f (x ∷ xs) = (if p x then f x else x) ∷ update_where p f xs

  -- `findMany({ orderBy })`, by insertion; `before` is strict
  abbrev pub insert_by : (A → A → Bool) → A → List A → List A
  insert_by before a [] = a ∷ []
  insert_by before a (x ∷ xs) = if before x a then x ∷ insert_by before a xs else a ∷ x ∷ xs

  abbrev pub order_by : (A → A → Bool) → List A → List A
  order_by before [] = []
  order_by before (x ∷ xs) = insert_by before x (order_by before xs)

  -- the sum of a figure over the rows
  abbrev pub sum_of : (A → ℕ) → List A → ℕ
  sum_of f [] = 0
  sum_of f (x ∷ xs) = f x + sum_of f xs

  pub any-filter :
      (p q : A → Bool) (xs : List A) → any q (filter p xs) ≡ true → any (λ x. p x && q x) xs ≡ true
  any-filter p q [] h = h
  any-filter p q (x ∷ xs) h = elim (Bool-cases (p x)) [
    | inl e ↦ rw e (ground (arith, any-filter p q xs, rw (filter, e) at h))
    | inr e ↦ rw e (any-filter p q xs (rw (filter, e) at h))
  ]

  any-insert_by :
      (before : A → A → Bool) (q : A → Bool) (a : A) (xs : List A)
      → any q (insert_by before a xs) ≡ any q (a ∷ xs)
  any-insert_by before q a [] = refl
  any-insert_by before q a (x ∷ xs) = ground (arith, any-insert_by before q a xs)

  pub any-order_by :
      (before : A → A → Bool) (q : A → Bool) (xs : List A) → any q (order_by before xs) ≡ any q xs
  any-order_by before q [] = refl
  any-order_by before q (x ∷ xs) =
      ground (arith, any-insert_by before q x (order_by before xs), any-order_by before q xs)
