-- ===== src/Base/Histories.antt =====
-- Programs at one history of calls: what an environment answers there is known exactly.
use mathlib.Core.Path.{◌≡◌, refl, sym, ap, ◌∙◌, subst}
use mathlib.Core.Logic.{◌⊎◌, inl, inr}
use mathlib.Core.List.{List, [], ◌∷◌, ◌++◌, append_assoc}
use mathlib.Core.Bool.{Bool, true, false}
use mathlib.Core.Option.{Option, none, some}
use nn_fuzz.Base.Tests.{if◌then◌else◌}
use nn_fuzz.Base.Lists.{append_cancel}
use nn_fuzz.Base.Outcome.{Outcome, ok, err, panic}
use nn_fuzz.Base.Program.{Program, Post, Ends, kinds-id, ◌>>=◌, ask, attempt, read}

-- Behind these calls the program adds others, and its outcome and those satisfy the predicate.
pub record EndsAt {C E A : Type 0} (h : List C) (m : Program C E A) (Q : Post E C A) : Type 0 where
  pub calls : List C
  pub grown : (m h).1 ≡ h ++ calls
  pub ends : Q (m h).0 calls

-- What is left to show behind a first part, by its outcome.
abbrev pub NextAt : {C E A B : Type 0} → List C → (A → Program C E B) → Post E C B → Post E C A
NextAt h f Q (ok a) ks = EndsAt (h ++ ks) (f a) (λ r more. Q r (ks ++ more))
NextAt h f Q (err e) ks = Q (err e) ks
NextAt h f Q panic ks = Q panic ks

module _ {C E A : Type 0} where
  -- What holds at every history.
  pub EndsAt-lift :
      {m : Program C E A} {Q : Post E C A} → Ends (λ c. c) m Q → (h : List C) → EndsAt h m Q
  EndsAt-lift {m} em h =
      let (ks, grown, q) = em.calls h in
      record {
        calls = ks;
        grown = sym (kinds-id (m h).1) ∙ grown ∙ ap (λ l. l ++ ks) (kinds-id h);
        ends = q;
      }

  pub EndsAt-impl :
      {h : List C} {m : Program C E A} {P Q : Post E C A}
      → EndsAt h m P
      → ((r : Outcome E A) (ks : List C) → P r ks → Q r ks)
      → EndsAt h m Q
  EndsAt-impl em weaker = record {
    calls = em.calls;
    grown = em.grown;
    ends = weaker _ em.calls em.ends;
  }

  -- Two predicates are about the same calls.
  pub EndsAt-both :
      {h : List C} {m : Program C E A} {P Q : Post E C A}
      → EndsAt h m P
      → EndsAt h m Q
      → EndsAt h m (λ r ks. P r ks × Q r ks)
  EndsAt-both {h} {m} {P} {Q} ep eq =
      let same : eq.calls ≡ ep.calls =
        append_cancel h eq.calls ep.calls (sym eq.grown ∙ ep.grown) in
      record {
        calls = ep.calls;
        grown = ep.grown;
        ends = (ep.ends, subst (Q (m h).0) same eq.ends);
      }

  -- The answer is that of this history.
  pub EndsAt-ask :
      (h : List C) (c : C) (reply : List C → E ⊎ A) {Q : Post E C A}
      → ((a : A) → reply h ≡ inr a → Q (ok a) (c ∷ []))
      → ((e : E) → reply h ≡ inl e → Q (err e) (c ∷ []))
      → EndsAt h (ask c reply) Q
  unfolding ask
  EndsAt-ask h c reply {Q} good bad = record {
    calls = c ∷ [];
    grown = refl;
    ends = go (reply h) refl;
  }
    where
      go : (x : E ⊎ A) → reply h ≡ x → Q (elim x [ inl e ↦ err e | inr a ↦ ok a ]) (c ∷ [])
      go (inl e) answer = bad e answer
      go (inr a) answer = good a answer

  pub EndsAt-attempt :
      (h : List C) (c : C) (reply : List C → Outcome E A) {Q : Post E C A}
      → Q (reply h) (c ∷ [])
      → EndsAt h (attempt c reply) Q
  unfolding attempt
  EndsAt-attempt h c reply q = record { calls = c ∷ []; grown = refl; ends = q }

  -- A branch knows its test.
  pub EndsAt-when :
      {h : List C} (b : Bool) {m n : Program C E A} {Q : Post E C A}
      → (b ≡ true → EndsAt h m Q)
      → (b ≡ false → EndsAt h n Q)
      → EndsAt h (if b then m else n) Q
  EndsAt-when true em en = em refl
  EndsAt-when false em en = en refl

  pub EndsAt-maybe :
      {h : List C} {X : Type 0} (o : Option X) {n : Program C E A} {m : X → Program C E A}
      {Q : Post E C A}
      → (o ≡ none → EndsAt h n Q)
      → ((x : X) → o ≡ some x → EndsAt h (m x) Q)
      → EndsAt h (elim o [ none ↦ n | some x ↦ m x ]) Q
  EndsAt-maybe none en em = en refl
  EndsAt-maybe (some x) en em = em x refl

module _ {C E A B : Type 0} where
  pub EndsAt-read :
      (h : List C) (g : List C → A) (f : A → Program C E B) {Q : Post E C B}
      → EndsAt h (f (g h)) Q
      → EndsAt h (read g >>= f) Q
  unfolding read ◌>>=◌
  EndsAt-read h g f em = record { calls = em.calls; grown = em.grown; ends = em.ends }

  pub EndsAt->>= :
      {h : List C} {m : Program C E A} {f : A → Program C E B} {Q : Post E C B}
      → EndsAt h m (NextAt h f Q)
      → EndsAt h (m >>= f) Q
  unfolding ◌>>=◌
  EndsAt->>= {h} {m} {f} {Q} em =
      let (ks, grown, ends) = go (m h) em.calls em.grown em.ends in
      record { calls = ks; grown = grown; ends = ends }
    where
      step : Outcome E A × List C → Outcome E B × List C
      step x = elim x.0 [ ok a ↦ f a x.1 | err e ↦ (err e, x.1) | panic ↦ (panic, x.1) ]

      go :
          (x : Outcome E A × List C) (ks : List C)
          → x.1 ≡ h ++ ks
          → NextAt h f Q x.0 ks
          → (more : List C) × ((step x).1 ≡ h ++ more) × Q (step x).0 more
      go (ok a, t) ks grown next = (
        ks ++ next.calls,
        ap (λ l. (f a l).1) grown ∙ next.grown ∙ append_assoc h ks next.calls,
        subst (λ l. Q (f a l).0 (ks ++ next.calls)) (sym grown) next.ends,
      )
      go (err e, t) ks grown next = (ks, grown, next)
      go (panic, t) ks grown next = (ks, grown, next)
