-- ===== src/Prelude/Entries.antt =====
-- What holds of every entry of a list, through the operations on lists.
use Prim.Native.Nat.{ℕ, zero, suc}
use mathlib.Core.Path.{◌≡◌, refl}
use mathlib.Core.Bool.{Bool, true}
use mathlib.Core.List.{List, [], ◌∷◌, ◌++◌}
use mathlib.Core.Logic.{inl, inr}
use burkham_wickmont_operati.Prelude.Tests.{Bool-cases, &&_split}
use burkham_wickmont_operati.Prelude.Lists.{All, all, filter, take, insert_by, order_by}

module _ {ℓ} {A : Type ℓ} (Q : A → Type 0) where
  pub filter-All : (p : A → Bool) (xs : List A) → All Q xs → All Q (filter p xs)
  filter-All p [] h = tt
  filter-All p (x ∷ xs) h = elim (Bool-cases (p x)) [
    | inl e ↦ rw e (h.0, filter-All p xs h.1)
    | inr e ↦ rw e (filter-All p xs h.1)
  ]

  pub filter-sat :
      (p : A → Bool) (xs : List A) → All (λ x. p x ≡ true → Q x) xs → All Q (filter p xs)
  filter-sat p [] h = tt
  filter-sat p (x ∷ xs) h = elim (Bool-cases (p x)) [
    | inl e ↦ rw e (h.0 e, filter-sat p xs h.1)
    | inr e ↦ rw e (filter-sat p xs h.1)
  ]

  pub filter-each :
      (p : A → Bool) (xs : List A) → ((x : A) → p x ≡ true → Q x) → All Q (filter p xs)
  filter-each p [] h = tt
  filter-each p (x ∷ xs) h = elim (Bool-cases (p x)) [
    | inl e ↦ rw e (h x e, filter-each p xs h)
    | inr e ↦ rw e (filter-each p xs h)
  ]

  pub take-All : (n : ℕ) (xs : List A) → All Q xs → All Q (take n xs)
  take-All zero xs h = tt
  take-All (suc n) [] h = tt
  take-All (suc n) (x ∷ xs) h = (h.0, take-All n xs h.1)

  pub insert_by-All :
      (before : A → A → Bool) (a : A) (xs : List A) → Q a → All Q xs → All Q (insert_by before a xs)
  insert_by-All before a [] q h = (q, tt)
  insert_by-All before a (x ∷ xs) q h = elim (Bool-cases (before x a)) [
    | inl e ↦ rw e (h.0, insert_by-All before a xs q h.1)
    | inr e ↦ rw e (q, h)
  ]

  pub order_by-All : (before : A → A → Bool) (xs : List A) → All Q xs → All Q (order_by before xs)
  order_by-All before [] h = tt
  order_by-All before (x ∷ xs) h =
      insert_by-All before x (order_by before xs) h.0 (order_by-All before xs h.1)

  pub append-All : (xs ys : List A) → All Q xs → All Q ys → All Q (xs ++ ys)
  append-All [] ys a b = b
  append-All (x ∷ xs) ys a b = (a.0, append-All xs ys a.1 b)

pub All-weaken {ℓ} :
    {A : Type ℓ} (P Q : A → Type 0) (xs : List A) → ((x : A) → P x → Q x) → All P xs → All Q xs
All-weaken P Q [] f h = tt
All-weaken P Q (x ∷ xs) f h = (f x h.0, All-weaken P Q xs f h.1)

pub all-All {ℓ} :
    {A : Type ℓ} (p : A → Bool) (xs : List A) → all p xs ≡ true → All (λ x. p x ≡ true) xs
all-All p [] h = tt
all-All p (x ∷ xs) h = let (a, b) = &&_split (p x) (all p xs) h in (a, all-All p xs b)

pub All-all {ℓ} :
    {A : Type ℓ} (p : A → Bool) (xs : List A) → All (λ x. p x ≡ true) xs → all p xs ≡ true
All-all p [] h = refl
All-all p (x ∷ xs) h = rw h.0 (All-all p xs h.1)
