-- ===== src/Base/Blind.antt =====
-- Programs that do the same whatever calls of some sorts have been recorded before.
use mathlib.Core.Path.{◌≡◌, refl, ap, ◌∙◌, sym}
use mathlib.Core.Logic.{◌⊎◌, inl, inr}
use mathlib.Core.Bool.{Bool, true, false}
use mathlib.Core.List.{List, [], ◌∷◌, ◌++◌}
use native.Mathlib.Omega.{arith}
use nn_fuzz.Base.Tests.{if◌then◌else◌}
use nn_fuzz.Base.Lists.{filter}
use nn_fuzz.Base.Outcome.{Outcome, ok, err, panic}
use nn_fuzz.Base.Program.{Program, pure, ask, read, ◌>>=◌}

module _ {C : Type 0} (shown : C → Bool) where
  abbrev pub visible : List C → List C
  visible h = filter shown h

  -- Two records of calls that show the same.
  abbrev pub Alike : List C → List C → Type 0
  Alike g h = visible g ≡ visible h

  visible-append : (g h : List C) → visible (g ++ h) ≡ visible g ++ visible h
  visible-append [] h = refl
  visible-append (c ∷ g) h = ground (arith, visible-append g h)

  pub Alike-append : (g h more : List C) → Alike g h → Alike (g ++ more) (h ++ more)
  Alike-append g h more e =
      visible-append g more ∙ ap (λ v. v ++ visible more) e ∙ sym (visible-append h more)

  pub Alike-hidden : (h : List C) (c : C) → shown c ≡ false → Alike (h ++ c ∷ []) h
  Alike-hidden [] c e = rw e
  Alike-hidden (d ∷ h) c e = ground (arith, Alike-hidden h c e)

  -- From records that show the same, a blind program ends alike, in records that show the same.
  pub record IsBlind {E A : Type 0} (m : Program C E A) : Type 0 where
    pub same : (g h : List C) → Alike g h → ((m g).0 ≡ (m h).0) × Alike (m g).1 (m h).1

module _ {C : Type 0} {shown : C → Bool} {E A : Type 0} where
  pub IsBlind-pure : (a : A) → IsBlind shown {E = E} (pure a)
  unfolding pure
  IsBlind-pure a = record { same = λ g h e. (refl, e) }

  pub IsBlind-read :
      (f : List C → A)
      → ((g h : List C) → Alike shown g h → f g ≡ f h)
      → IsBlind shown {E = E} (read f)
  unfolding read
  IsBlind-read f blind = record { same = λ g h e. (ap ok (blind g h e), e) }

  pub IsBlind-ask :
      (c : C) (reply : List C → E ⊎ A)
      → ((g h : List C) → Alike shown g h → reply g ≡ reply h)
      → IsBlind shown (ask c reply)
  unfolding ask
  IsBlind-ask c reply blind = record {
    same = λ g h e. (
      ap (λ (x : E ⊎ A). let r : Outcome E A = elim x [ inl e ↦ err e | inr a ↦ ok a ] in r)
          (blind g h e),
      Alike-append shown g h (c ∷ []) e,
    );
  }

  pub IsBlind-if :
      (b : Bool) {m n : Program C E A}
      → IsBlind shown m
      → IsBlind shown n
      → IsBlind shown (if b then m else n)
  IsBlind-if true bm bn = bm
  IsBlind-if false bm bn = bn

module _ {C : Type 0} {shown : C → Bool} {E A B : Type 0} where
  pub IsBlind->>= :
      {m : Program C E A} {f : A → Program C E B}
      → IsBlind shown m
      → ((a : A) → IsBlind shown (f a))
      → IsBlind shown (m >>= f)
  unfolding ◌>>=◌
  IsBlind->>= {m} {f} bm bf = record { same = λ g h e. go (m g) (m h) (bm.same g h e) }
    where
      step : Outcome E A × List C → Outcome E B × List C
      step x = elim x.0 [ ok a ↦ f a x.1 | err e ↦ (err e, x.1) | panic ↦ (panic, x.1) ]

      go :
          (x y : Outcome E A × List C)
          → (x.0 ≡ y.0) × Alike shown x.1 y.1
          → ((step x).0 ≡ (step y).0) × Alike shown (step x).1 (step y).1
      go (ok a, s) (ok b, t) (r, e) = let same : a ≡ b = cc in rw (← same) ((bf a).same s t e)
      go (ok a, s) (err y, t) (r, e) = absurd (cc)
      go (ok a, s) (panic, t) (r, e) = absurd (cc)
      go (err x, s) (ok b, t) (r, e) = absurd (cc)
      go (err x, s) (err y, t) (r, e) = (ground arith, e)
      go (err x, s) (panic, t) (r, e) = absurd (cc)
      go (panic, s) (ok b, t) (r, e) = absurd (cc)
      go (panic, s) (err y, t) (r, e) = absurd (cc)
      go (panic, s) (panic, t) (r, e) = (refl, e)
