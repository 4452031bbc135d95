-- ===== src/Base/Lists.antt =====
-- Lists measured by native numbers, with Boolean membership and predicates by recursion.
use Prim.Native.Nat.{ℕ, zero, suc, ◌+◌}
use mathlib.Core.Path.{◌≡◌, refl}
use mathlib.Core.Bool.{Bool, false, ◌||◌}
use mathlib.Core.Option.{Option, none, some}
use mathlib.Core.List.{List, [], ◌∷◌, ◌++◌}
use native.Mathlib.Omega.{arith}
use nn_fuzz.Base.Tests.{◌==◌, if◌then◌else◌}

module _ {ℓ} {A : Type ℓ} where
  abbrev pub length : List A → ℕ
  length [] = 0
  length (x ∷ xs) = suc (length xs)

  abbrev pub get_elem? : List A → ℕ → Option A
  get_elem? [] i = none
  get_elem? (x ∷ xs) zero = some x
  get_elem? (x ∷ xs) (suc i) = get_elem? xs i

  pub length-append : (xs ys : List A) → length (xs ++ ys) ≡ length xs + length ys
  length-append [] ys = omega arith
  length-append (x ∷ xs) ys = omega (arith, length-append xs ys)

module _ {ℓ} {A : Type ℓ} where
  -- The elements that pass the test, in order.
  abbrev pub filter : (A → Bool) → List A → List A
  filter p [] = []
  filter p (x ∷ xs) = let rest = filter p xs in if p x then x ∷ rest else rest

module _ {ℓ κ} {A : Type ℓ} (P : A → Type κ) where
  abbrev pub All : List A → Type κ
  All [] = Unit
  All (x ∷ xs) = P x × All xs

  pub All-append : (xs ys : List A) → All xs → All ys → All (xs ++ ys)
  All-append [] ys _ hy = hy
  All-append (x ∷ xs) ys (px, hx) hy = (px, All-append xs ys hx hy)

abbrev pub contains : ℕ → List ℕ → Bool
contains a [] = false
contains a (x ∷ xs) = a == x || contains a xs

-- No number is listed twice.
abbrev pub Distinct : List ℕ → Type 0
Distinct [] = Unit
Distinct (x ∷ xs) = (contains x xs ≡ false) × Distinct xs

pub contains-append :
    (a : ℕ) (xs ys : List ℕ) → contains a (xs ++ ys) ≡ (contains a xs || contains a ys)
contains-append a [] ys = refl
contains-append a (x ∷ xs) ys = ground (arith, contains-append a xs ys)

module _ {ℓ} {A : Type ℓ} where
  tail-injective : (x y : A) (xs ys : List A) → x ∷ xs ≡ y ∷ ys → xs ≡ ys
  tail-injective x y xs ys h = cc

  -- Two lists that extend one list to one list are one.
  pub append_cancel : (xs ys zs : List A) → xs ++ ys ≡ xs ++ zs → ys ≡ zs
  append_cancel [] ys zs h = h
  append_cancel (x ∷ xs) ys zs h =
      append_cancel xs ys zs (tail-injective x x (xs ++ ys) (xs ++ zs) h)

module _ {A : Type 0} where
  -- The first list is a first part of the second.
  abbrev pub IsPrefix : List A → List A → Type 0
  IsPrefix [] ys = Unit
  IsPrefix (x ∷ xs) [] = ⊥
  IsPrefix (x ∷ xs) (y ∷ ys) = (x ≡ y) × IsPrefix xs ys

  pub IsPrefix-append : (xs ys zs : List A) → IsPrefix xs ys → IsPrefix xs (ys ++ zs)
  IsPrefix-append [] ys zs h = tt
  IsPrefix-append (x ∷ xs) [] zs h = absurd h
  IsPrefix-append (x ∷ xs) (y ∷ ys) zs (same, h) = (same, IsPrefix-append xs ys zs h)

  pub IsPrefix-behind : (xs ys zs : List A) → IsPrefix ys zs → IsPrefix (xs ++ ys) (xs ++ zs)
  IsPrefix-behind [] ys zs h = h
  IsPrefix-behind (x ∷ xs) ys zs h = (refl, IsPrefix-behind xs ys zs h)

  pub IsPrefix-refl : (xs : List A) → IsPrefix xs xs
  IsPrefix-refl [] = tt
  IsPrefix-refl (x ∷ xs) = (refl, IsPrefix-refl xs)
