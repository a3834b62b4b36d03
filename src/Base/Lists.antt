-- ===== src/Base/Lists.antt =====
-- Lists measured by the native numbers, Boolean quantifiers and predicates over lists.
use Prim.Native.Nat.{ℕ, suc, ◌+◌}
use mathlib.Core.Path.{◌≡◌}
use mathlib.Core.Logic.{◌⊎◌, inl, inr}
use soha_app.Base.Tests.{||-cases}
use mathlib.Core.Bool.{Bool, true, false, ◌&&◌, ◌||◌}
use mathlib.Core.List.{List, [], ◌∷◌, ◌++◌}
use native.Mathlib.Omega.{arith}

module _ {ℓ} {A : Type ℓ} where
  abbrev pub length : List A → ℕ
  length [] = 0
  length (x ∷ xs) = suc (length xs)

  abbrev pub is_empty : List A → Bool
  is_empty [] = true
  is_empty (x ∷ xs) = false

  abbrev pub all : (A → Bool) → List A → Bool
  all p [] = true
  all p (x ∷ xs) = p x && all p xs

  abbrev pub any : (A → Bool) → List A → Bool
  any p [] = false
  any p (x ∷ xs) = p x || any p xs

  pub length-append : (xs ys : List A) → length (xs ++ ys) ≡ length xs + length ys
  length-append [] ys = omega arith
  length-append (x ∷ xs) ys = omega (arith, length-append xs ys)

module _ {ℓ} {A : Type ℓ} (P : A → Type 0) where
  abbrev pub All : List A → Type 0
  All [] = Unit
  All (x ∷ xs) = P x × All xs

  -- Some member of the list satisfies the predicate.
  abbrev pub Ever : List A → Type 0
  Ever [] = ⊥
  Ever (x ∷ xs) = P x ⊎ Ever xs

module _ {ℓ} {A : Type ℓ} {P : A → Type 0} where
  pub all→All :
      (p : A → Bool) (xs : List A) → ((x : A) → p x ≡ true → P x) → all p xs ≡ true → All P xs
  all→All p [] f h = tt
  all→All p (x ∷ xs) f h = (f x (ground arith), all→All p xs f (ground arith))

  pub any→Ever :
      (p : A → Bool) (xs : List A) → ((x : A) → p x ≡ true → P x) → any p xs ≡ true → Ever P xs
  any→Ever p [] f h = ground arith
  any→Ever p (x ∷ xs) f h = elim (||-cases (p x) (any p xs) h) [
    | inl here ↦ inl (f x here)
    | inr later ↦ inr (any→Ever p xs f later)
  ]

  pub All-map : {Q : A → Type 0} (xs : List A) → ((x : A) → P x → Q x) → All P xs → All Q xs
  All-map [] f a = tt
  All-map (x ∷ xs) f (here, later) = (f x here, All-map xs f later)

  pub Ever-map : {Q : A → Type 0} (xs : List A) → ((x : A) → P x → Q x) → Ever P xs → Ever Q xs
  Ever-map [] f e = e
  Ever-map (x ∷ xs) f (inl here) = inl (f x here)
  Ever-map (x ∷ xs) f (inr later) = inr (Ever-map xs f later)
