-- ===== src/Base/Action.antt =====
-- A computation with a state, an error and a panic. What was written stays written: the state comes
-- back in every case.
use mathlib.Core.Path.{◌≡◌, refl, ap}
use mathlib.Core.Logic.{◌⊎◌, inl, inr}
use nn_fuzz.Base.Outcome.{Outcome, ok, err, panic}

abbrev pub Action {ℓ κ μ} : Type ℓ → Type κ → Type μ → Type (ℓ ⊔ κ ⊔ μ)
Action S E A = S → Outcome E A × S

infixl 5 ◌>>=◌ ◌>>◌
abbrev pub ◌>>=◌ {ℓ κ μ ν} :
    {S : Type ℓ} {E : Type κ} {A : Type μ} {B : Type ν}
    → Action S E A
    → (A → Action S E B)
    → Action S E B
◌>>=◌ m f s =
    let (r, s') = m s in elim r [ ok a ↦ f a s' | err e ↦ (err e, s') | panic ↦ (panic, s') ]

abbrev pub ◌>>◌ {ℓ κ μ} :
    {S : Type ℓ} {E : Type κ} {B : Type μ} → Action S E (Unit {0}) → Action S E B → Action S E B
m >> k = m >>= λ _. k

-- A step that does not touch the state.
abbrev pub lift {ℓ κ μ} : {S : Type ℓ} {E : Type κ} {A : Type μ} → Outcome E A → Action S E A
lift r s = (r, s)

abbrev pub pure {ℓ κ μ} : {S : Type ℓ} {E : Type κ} {A : Type μ} → A → Action S E A
pure a s = (ok a, s)

abbrev pub throw {ℓ κ μ} : {S : Type ℓ} {E : Type κ} {A : Type μ} → E → Action S E A
throw e s = (err e, s)

-- The error conversion of `?`, and `expect`.
abbrev pub convert {ℓ κ ν μ} :
    {S : Type ℓ} {E : Type κ} {F : Type ν} {A : Type μ} → (E → F) → Action S E A → Action S F A
convert f m s =
    let (r, s') = m s in
    elim r [ ok a ↦ (ok a, s') | err e ↦ (err (f e), s') | panic ↦ (panic, s') ]

abbrev pub expecting {ℓ κ ν μ} :
    {S : Type ℓ} {E : Type κ} {F : Type ν} {A : Type μ} → Action S E A → Action S F A
expecting m s =
    let (r, s') = m s in elim r [ ok a ↦ (ok a, s') | err e ↦ (panic, s') | panic ↦ (panic, s') ]

-- A successful sequence has made both steps.
pub >>=-eq-ok {ℓ κ μ ν} :
    {S : Type ℓ} {E : Type κ} {A : Type μ} {B : Type ν} (m : Action S E A) (f : A → Action S E B)
    (s : S) {b : B} {s' : S}
    → (m >>= f) s ≡ (ok b, s')
    → (a : A) × (t : S) × (m s ≡ (ok a, t)) × (f a t ≡ (ok b, s'))
>>=-eq-ok {S} {E} {A} {B} m f s {b} {s'} h = go (m s) refl h
  where
    go :
        (x : Outcome E A × S)
        → m s ≡ x
        → (elim x.0 [ ok a ↦ f a x.1 | err e ↦ (err e, x.1) | panic ↦ (panic, x.1) ]) ≡ (ok b, s')
        → (a : A) × (t : S) × (m s ≡ (ok a, t)) × (f a t ≡ (ok b, s'))
    go (ok a, t) e h = (a, t, e, h)
    go (err x, t) e h = cc
    go (panic, t) e h = cc

pub convert-eq-ok {ℓ κ ν μ} :
    {S : Type ℓ} {E : Type κ} {F : Type ν} {A : Type μ} (f : E → F) (m : Action S E A) (s : S)
    {a : A} {s' : S}
    → convert f m s ≡ (ok a, s')
    → m s ≡ (ok a, s')
convert-eq-ok {S} {E} {F} {A} f m s {a} {s'} h = go (m s) h
  where
    go :
        (x : Outcome E A × S)
        → ◌≡◌ {A = Outcome F A × S}
            (elim x.0 [ ok b ↦ (ok b, x.1) | err e ↦ (err (f e), x.1) | panic ↦ (panic, x.1) ])
            (ok a, s')
        → x ≡ (ok a, s')
    go (ok b, t) h = cc
    go (err x, t) h = cc
    go (panic, t) h = cc

pub expecting-eq-ok {ℓ κ ν μ} :
    {S : Type ℓ} {E : Type κ} {F : Type ν} {A : Type μ} (m : Action S E A) (s : S) {a : A} {s' : S}
    → expecting {F = F} m s ≡ (ok a, s')
    → m s ≡ (ok a, s')
expecting-eq-ok {S} {E} {F} {A} m s {a} {s'} h = go (m s) h
  where
    go :
        (x : Outcome E A × S)
        → ◌≡◌ {A = Outcome F A × S}
            (elim x.0 [ ok b ↦ (ok b, x.1) | err e ↦ (panic, x.1) | panic ↦ (panic, x.1) ])
            (ok a, s')
        → x ≡ (ok a, s')
    go (ok b, t) h = cc
    go (err x, t) h = cc
    go (panic, t) h = cc

-- To split on the end of a step and keep the equation.
pub ends {ℓ κ μ} :
    {S : Type ℓ} {E : Type κ} {A : Type μ} (x : Outcome E A × S)
    → ((a : A) × (t : S) × (x ≡ (ok a, t)))
      ⊎ (((e : E) × (t : S) × (x ≡ (err e, t))) ⊎ ((t : S) × (x ≡ (panic, t))))
ends (ok a, t) = inl (a, t, refl)
ends (err e, t) = inr (inl (e, t, refl))
ends (panic, t) = inr (inr (t, refl))

abbrev and_then {ℓ κ μ ν} :
    {S : Type ℓ} {E : Type κ} {A : Type μ} {B : Type ν}
    → (A → Action S E B)
    → Outcome E A × S
    → Outcome E B × S
and_then f x = elim x.0 [ ok a ↦ f a x.1 | err e ↦ (err e, x.1) | panic ↦ (panic, x.1) ]

-- What a first step gives, and a second one, which knows how the first one ended, or a failure makes of
-- it.
pub >>=-leads-eq {ℓ κ μ ν ξ} :
    {S : Type ℓ} {E : Type κ} {A : Type μ} {B : Type ν} (P Q : S → Type ξ) (m : Action S E A)
    (f : A → Action S E B) (s : S)
    → P (m s).1
    → ((a : A) (t : S) → m s ≡ (ok a, t) → P t → Q (f a t).1)
    → ((t : S) → P t → Q t)
    → Q ((m >>= f) s).1
>>=-leads-eq {S} {E} {A} {B} P Q m f s first next last = go (m s) refl first
  where
    go : (x : Outcome E A × S) → m s ≡ x → P x.1 → Q (and_then f x).1
    go (ok a, t) e h = next a t e h
    go (err x, t) e h = last t h
    go (panic, t) e h = last t h

-- The same where the second step need not know it.
pub >>=-leads {ℓ κ μ ν ξ} :
    {S : Type ℓ} {E : Type κ} {A : Type μ} {B : Type ν} (P Q : S → Type ξ) (m : Action S E A)
    (f : A → Action S E B) (s : S)
    → P (m s).1
    → ((a : A) (t : S) → P t → Q (f a t).1)
    → ((t : S) → P t → Q t)
    → Q ((m >>= f) s).1
>>=-leads P Q m f s first next last = >>=-leads-eq P Q m f s first (λ a t _. next a t) last

-- An invariant of each step is one of the sequence, however it ends.
pub >>=-keeps-eq {ℓ κ μ ν ξ} :
    {S : Type ℓ} {E : Type κ} {A : Type μ} {B : Type ν} (P : S → Type ξ) (m : Action S E A)
    (f : A → Action S E B) (s : S)
    → P (m s).1
    → ((a : A) (t : S) → m s ≡ (ok a, t) → P t → P (f a t).1)
    → P ((m >>= f) s).1
>>=-keeps-eq P m f s first next = >>=-leads-eq P P m f s first next (λ _ h. h)

pub >>=-keeps {ℓ κ μ ν ξ} :
    {S : Type ℓ} {E : Type κ} {A : Type μ} {B : Type ν} (P : S → Type ξ) (m : Action S E A)
    (f : A → Action S E B) (s : S)
    → P (m s).1
    → ((a : A) (t : S) → P t → P (f a t).1)
    → P ((m >>= f) s).1
>>=-keeps P m f s first next = >>=-leads P P m f s first next (λ _ h. h)

-- Behind a step that succeeds the sequence is its second part.
pub >>=-ok {ℓ κ μ ν} :
    {S : Type ℓ} {E : Type κ} {A : Type μ} {B : Type ν} (m : Action S E A) (f : A → Action S E B)
    (s t : S) (a : A)
    → m s ≡ (ok a, t)
    → (m >>= f) s ≡ f a t
>>=-ok m f s t a e = ap (and_then f) e
