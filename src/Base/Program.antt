-- ===== src/Base/Program.antt =====
-- Programs that call foreign code: each call is recorded, and an environment answers by what was
-- called before. A proof goes by one rule for each operation, which stay shut.
use mathlib.Core.Path.{◌≡◌, refl, sym, ap, ◌∙◌, subst}
use mathlib.Core.Logic.{◌⊎◌, inl, inr}
use mathlib.Core.Bool.{Bool, true, false}
use mathlib.Core.Option.{Option, none, some}
use mathlib.Core.List.{List, [], ◌∷◌, ◌++◌, map, append_assoc, append-nil}
use nn_fuzz.Base.Tests.{if◌then◌else◌}
use nn_fuzz.Base.Lists.{append_cancel}
use nn_fuzz.Base.Outcome.{Outcome, ok, err, panic}
use nn_fuzz.Base.Action.{Action}

abbrev pub Program : Type 0 → Type 0 → Type 0 → Type 0
Program C E A = Action (List C) E A

unfoldable pub pure : {C E A : Type 0} → A → Program C E A
pure a h = (ok a, h)

infixl 5 ◌>>=◌ ◌>>◌
unfoldable pub ◌>>=◌ : {C E A B : Type 0} → Program C E A → (A → Program C E B) → Program C E B
◌>>=◌ m f h =
    let (r, h') = m h in elim r [ ok a ↦ f a h' | err e ↦ (err e, h') | panic ↦ (panic, h') ]

abbrev pub ◌>>◌ : {C E B : Type 0} → Program C E (Unit {0}) → Program C E B → Program C E B
m >> k = m >>= λ _. k

-- Behind a program that succeeds the sequence is its second part.
pub >>=-ok :
    {C E A B : Type 0} (m : Program C E A) (f : A → Program C E B) (h t : List C) (a : A)
    → m h ≡ (ok a, t)
    → (m >>= f) h ≡ f a t
unfolding ◌>>=◌
>>=-ok {C} {E} {A} {B} m f h t a e =
    ap
      (λ (x : Outcome E A × List C).
        let y : Outcome E B × List C = elim x.0 [
          | ok a ↦ f a x.1
          | err e ↦ (err e, x.1)
          | panic ↦ (panic, x.1)
        ] in
        y)
      e

-- One call: it is recorded, and the environment answers by what had happened before.
unfoldable pub ask : {C E A : Type 0} → C → (List C → E ⊎ A) → Program C E A
ask c reply h = (elim (reply h) [ inl e ↦ err e | inr a ↦ ok a ], h ++ c ∷ [])

-- A call whose failure panics: `unwrap` and `expect` on its answer.
unfoldable pub demand : {C E A : Type 0} → C → (List C → E ⊎ A) → Program C E A
demand c reply h = (elim (reply h) [ inl _ ↦ panic | inr a ↦ ok a ], h ++ c ∷ [])

-- A call that may also panic.
unfoldable pub attempt : {C E A : Type 0} → C → (List C → Outcome E A) → Program C E A
attempt c reply h = (reply h, h ++ c ∷ [])

-- A call that cannot fail and answers nothing.
unfoldable pub note : {C E : Type 0} → C → Program C E (Unit {0})
note c h = (ok tt, h ++ c ∷ [])

-- A program over other calls, which starts with none made.
unfoldable pub embed : {C D E A : Type 0} → (D → C) → Program D E A → Program C E A
embed f m h = let (r, t) = m [] in (r, h ++ map f t)

-- A value of the state, read with no call.
unfoldable pub read : {C E A : Type 0} → (List C → A) → Program C E A
read f h = (ok (f h), h)

unfoldable pub throw : {C E A : Type 0} → E → Program C E A
throw e h = (err e, h)

unfoldable pub die : {C E A : Type 0} → Program C E A
die h = (panic, h)

abbrev pub Post : Type 0 → Type 0 → Type 0 → Type 1
Post E K A = Outcome E A → List K → Type 0

module _ {C K : Type 0} (kind : C → K) where
  unfoldable pub kinds : List C → List K
  kinds [] = []
  kinds (c ∷ h) = kind c ∷ kinds h

  pub kinds-append : (g h : List C) → kinds (g ++ h) ≡ kinds g ++ kinds h
  unfolding kinds
  kinds-append [] h = refl
  kinds-append (c ∷ g) h = rw (kinds-append g h)

  -- The program adds calls of some kinds, and its outcome and those kinds satisfy the predicate.
  pub record Ends {E A : Type 0} (m : Program C E A) (Q : Post E K A) : Type 0 where
    pub calls : (h : List C) → (ks : List K) × (kinds (m h).1 ≡ kinds h ++ ks) × Q (m h).0 ks

  -- What is left to show behind a first part, by its outcome.
  abbrev pub Next : {E A B : Type 0} → (A → Program C E B) → Post E K B → Post E K A
  Next f Q (ok a) ks = Ends (f a) (λ r more. Q r (ks ++ more))
  Next f Q (err e) ks = Q (err e) ks
  Next f Q panic ks = Q panic ks

-- With the calls themselves as kinds nothing is forgotten.
pub kinds-id : {C : Type 0} (h : List C) → kinds (λ c. c) h ≡ h
unfolding kinds
kinds-id [] = refl
kinds-id (c ∷ h) = rw (kinds-id h) refl

module _ {C K E A : Type 0} {kind : C → K} where
  -- What is known of the calls and what is known of their kinds are about the same calls.
  pub Ends-both :
      {m : Program C E A} {P : Post E C A} {Q : Post E K A}
      → Ends (λ c. c) m P
      → Ends kind m Q
      → Ends (λ c. c) m (λ r ks. P r ks × Q r (kinds kind ks))
  Ends-both {m} {P} {Q} ep eq = record {
    calls = λ h.
        let (ks, grown, p) = ep.calls h in
        let (ks', grown', q) = eq.calls h in
        let made : (m h).1 ≡ h ++ ks =
          sym (kinds-id (m h).1) ∙ grown ∙ ap (λ l. l ++ ks) (kinds-id h) in
        let same : ks' ≡ kinds kind ks =
          append_cancel (kinds kind h) ks' (kinds kind ks)
            (sym grown' ∙ ap (kinds kind) made ∙ kinds-append kind h ks) in
        (ks, grown, (p, subst (Q (m h).0) same q));
  }

  pub Ends-pure : (a : A) {Q : Post E K A} → Q (ok a) [] → Ends kind (pure a) Q
  unfolding pure
  Ends-pure a q = record { calls = λ h. ([], sym (append-nil (kinds kind h)), q) }

  pub Ends-throw : (e : E) {Q : Post E K A} → Q (err e) [] → Ends kind (throw e) Q
  unfolding throw
  Ends-throw e q = record { calls = λ h. ([], sym (append-nil (kinds kind h)), q) }

  pub Ends-die : {Q : Post E K A} → Q panic [] → Ends kind die Q
  unfolding die
  Ends-die q = record { calls = λ h. ([], sym (append-nil (kinds kind h)), q) }

  pub Ends-read :
      (f : List C → A) {Q : Post E K A} → ((h : List C) → Q (ok (f h)) []) → Ends kind (read f) Q
  unfolding read
  Ends-read f q = record { calls = λ h. ([], sym (append-nil (kinds kind h)), q h) }

  pub Ends-ask :
      (c : C) (reply : List C → E ⊎ A) {Q : Post E K A}
      → ((a : A) → Q (ok a) (kind c ∷ []))
      → ((e : E) → Q (err e) (kind c ∷ []))
      → Ends kind (ask c reply) Q
  unfolding kinds ask
  Ends-ask c reply {Q} good bad = record {
    calls = λ h. (kind c ∷ [], kinds-append kind h (c ∷ []), go (reply h));
  }
    where
      go : (x : E ⊎ A) → Q (elim x [ inl e ↦ err e | inr a ↦ ok a ]) (kind c ∷ [])
      go (inl e) = bad e
      go (inr a) = good a

  -- A call whose answer is kept, with what had been called before it.
  pub Ends-answer :
      (c : C) (reply : List C → E ⊎ A) {Q : Post E K A}
      → ((h : List C) (a : A) → reply h ≡ inr a → Q (ok a) (kind c ∷ []))
      → ((e : E) → Q (err e) (kind c ∷ []))
      → Ends kind (ask c reply) Q
  unfolding kinds ask
  Ends-answer c reply {Q} good bad = record {
    calls = λ h. (kind c ∷ [], kinds-append kind h (c ∷ []), go h (reply h) refl);
  }
    where
      go :
          (h : List C) (x : E ⊎ A)
          → reply h ≡ x
          → Q (elim x [ inl e ↦ err e | inr a ↦ ok a ]) (kind c ∷ [])
      go h (inl e) answer = bad e
      go h (inr a) answer = good h a answer

  pub Ends-attempt :
      (c : C) (reply : List C → Outcome E A) {Q : Post E K A}
      → ((r : Outcome E A) → Q r (kind c ∷ []))
      → Ends kind (attempt c reply) Q
  unfolding kinds attempt
  Ends-attempt c reply every = record {
    calls = λ h. (kind c ∷ [], kinds-append kind h (c ∷ []), every (reply h));
  }

  pub Ends-demand :
      (c : C) (reply : List C → E ⊎ A) {Q : Post E K A}
      → ((a : A) → Q (ok a) (kind c ∷ []))
      → Q panic (kind c ∷ [])
      → Ends kind (demand c reply) Q
  unfolding kinds demand
  Ends-demand c reply {Q} good bad = record {
    calls = λ h. (kind c ∷ [], kinds-append kind h (c ∷ []), go (reply h));
  }
    where
      go : (x : E ⊎ A) → Q (elim x [ inl _ ↦ panic | inr a ↦ ok a ]) (kind c ∷ [])
      go (inl e) = bad
      go (inr a) = good a

  -- A call whose answer is known.
  pub Ends-demand_known :
      (c : C) (reply : List C → E ⊎ A) (a : A) {Q : Post E K A}
      → ((h : List C) → reply h ≡ inr a)
      → Q (ok a) (kind c ∷ [])
      → Ends kind (demand c reply) Q
  unfolding kinds demand
  Ends-demand_known c reply a {Q} known good = record {
    calls = λ h. (kind c ∷ [], kinds-append kind h (c ∷ []), rw (known h) good);
  }

  -- A call that is answered well at every history.
  pub Ends-ask_answered :
      (c : C) (reply : List C → E ⊎ A) {Q : Post E K A}
      → ((h : List C) → (a : A) × (reply h ≡ inr a) × Q (ok a) (kind c ∷ []))
      → Ends kind (ask c reply) Q
  unfolding kinds ask
  Ends-ask_answered c reply {Q} good = record {
    calls = λ h.
        let (a, answer, q) = good h in (kind c ∷ [], kinds-append kind h (c ∷ []), rw answer q);
  }

  pub Ends-embed :
      {D : Type 0} (f : D → C) (m : Program D E A) {Q : Post E K A}
      → Q (m []).0 (kinds kind (map f (m []).1))
      → Ends kind (embed f m) Q
  unfolding embed
  Ends-embed f m q = record {
    calls = λ h. (kinds kind (map f (m []).1), kinds-append kind h (map f (m []).1), q);
  }

  pub Ends-if :
      (b : Bool) {m n : Program C E A} {Q : Post E K A}
      → Ends kind m Q
      → Ends kind n Q
      → Ends kind (if b then m else n) Q
  Ends-if true em en = em
  Ends-if false em en = en

  -- A branch knows its test.
  pub Ends-elim :
      (b : Bool) {m n : Program C E A} {Q : Post E K A}
      → (b ≡ true → Ends kind m Q)
      → (b ≡ false → Ends kind n Q)
      → Ends kind (elim b [ true ↦ m | false ↦ n ]) Q
  Ends-elim true em en = em refl
  Ends-elim false em en = en refl

  pub Ends-when :
      (b : Bool) {m n : Program C E A} {Q : Post E K A}
      → (b ≡ true → Ends kind m Q)
      → (b ≡ false → Ends kind n Q)
      → Ends kind (if b then m else n) Q
  Ends-when true em en = em refl
  Ends-when false em en = en refl

  pub Ends-maybe :
      {X : Type 0} (o : Option X) {n : Program C E A} {m : X → Program C E A} {Q : Post E K A}
      → (o ≡ none → Ends kind n Q)
      → ((x : X) → o ≡ some x → Ends kind (m x) Q)
      → Ends kind (elim o [ none ↦ n | some x ↦ m x ]) Q
  Ends-maybe none en em = en refl
  Ends-maybe (some x) en em = em x refl

  -- Another predicate that follows.
  pub Ends-impl :
      {m : Program C E A} {P Q : Post E K A}
      → Ends kind m P
      → ((r : Outcome E A) (ks : List K) → P r ks → Q r ks)
      → Ends kind m Q
  Ends-impl em weaker = record {
    calls = λ h. let (ks, grown, p) = em.calls h in (ks, grown, weaker _ ks p);
  }

module _ {C K E : Type 0} {kind : C → K} where
  pub Ends-note : (c : C) {Q : Post E K (Unit {0})} → Q (ok tt) (kind c ∷ []) → Ends kind (note c) Q
  unfolding kinds note
  Ends-note c q = record { calls = λ h. (kind c ∷ [], kinds-append kind h (c ∷ []), q) }

module _ {C K E A B : Type 0} {kind : C → K} where
  pub Ends->>= :
      {m : Program C E A} {f : A → Program C E B} {Q : Post E K B}
      → Ends kind m (Next kind f Q)
      → Ends kind (m >>= f) Q
  unfolding ◌>>=◌
  Ends->>= {m} {f} {Q} em = record { calls = λ h. go h (m h) (em.calls h) }
    where
      step : Outcome E A × List C → Outcome E B × List C
      step x = elim x.0 [ ok a ↦ f a x.1 | err e ↦ (err e, x.1) | panic ↦ (panic, x.1) ]

      go :
          (h : List C) (x : Outcome E A × List C)
          → ((ks : List K) × (kinds kind x.1 ≡ kinds kind h ++ ks) × Next kind f Q x.0 ks)
          → (ks : List K) × (kinds kind (step x).1 ≡ kinds kind h ++ ks) × Q (step x).0 ks
      go h (ok a, t) (ks, grown, next) =
          let (more, grown', q) = next.calls t in
          (
            ks ++ more,
            grown' ∙ ap (λ (l : List K). l ++ more) grown ∙ append_assoc (kinds kind h) ks more,
            q,
          )
      go h (err e, t) (ks, grown, next) = (ks, grown, next)
      go h (panic, t) (ks, grown, next) = (ks, grown, next)
