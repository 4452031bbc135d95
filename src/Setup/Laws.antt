-- ===== src/Setup/Laws.antt =====
-- Parts of a client's set-up and the fuzzing loop behind them: how the parts go together.
use nn_fuzz.Base.{
  ◌≡◌, refl, sym, ap, ◌∙◌, ◌⊎◌, inl, inr, List, [], ◌∷◌, ◌++◌, append_assoc, All, All-append,
}
use nn_fuzz.Base.Outcome.{Outcome, ok, err, panic}
use nn_fuzz.Base.Program.{Post, ◌>>=◌}
use nn_fuzz.Base.Histories.{EndsAt, NextAt, EndsAt->>=, EndsAt-impl}
use nn_fuzz.External.{LibaflError}
use nn_fuzz.Setup.{Call, fuzz_loop, fuzzing, Client}

abbrev pub IsBefore : Call → Type 0
IsBefore (fuzz_loop _ _) = ⊥
IsBefore _ = Unit

-- A part of the set-up: it never enters the fuzzing loop, and when it succeeds its calls are these.
abbrev pub Part : {A : Type 0} → (A → List Call → Type 0) → Post LibaflError Call A
Part P (ok a) ks = All IsBefore ks × P a ks
Part P (err _) ks = All IsBefore ks
Part P panic ks = All IsBefore ks

-- A set-up as it should be, and behind it the fuzzing loop, which ends so.
abbrev pub Goal : Type 1
Goal = Outcome LibaflError (Unit {0}) → List Call → Type 0

abbrev pub IsRun : Goal → Goal
IsRun G r ks = (pre : List Call) × All IsBefore pre × G r pre × (ks ≡ pre ++ fuzzing ∷ [])

-- A run that succeeds has entered the loop, once and last, behind the whole set-up; one that fails or
-- panics may have.
abbrev pub Fuzzed : Goal → Post LibaflError Call (Unit {0})
Fuzzed G (ok _) ks = IsRun G (ok tt) ks
Fuzzed G (err e) ks = All IsBefore ks ⊎ IsRun G (err e) ks
Fuzzed G panic ks = All IsBefore ks ⊎ IsRun G panic ks

-- The goal of what comes behind these calls.
abbrev pub after : List Call → Goal → Goal
after ks G r pre = G r (ks ++ pre)

later :
    (G : Goal) (r : Outcome LibaflError (Unit {0})) (ks more : List Call)
    → All IsBefore ks
    → IsRun (after ks G) r more
    → IsRun G r (ks ++ more)
later G r ks more h (pre, before, g, e) = (
  ks ++ pre,
  All-append IsBefore ks pre h before,
  g,
  ap (λ q. ks ++ q) e ∙ sym (append_assoc ks pre (fuzzing ∷ [])),
)

cut_off :
    (G : Goal) (r : Outcome LibaflError (Unit {0})) (ks more : List Call)
    → All IsBefore ks
    → All IsBefore more ⊎ IsRun (after ks G) r more
    → All IsBefore (ks ++ more) ⊎ IsRun G r (ks ++ more)
cut_off G r ks more h (inl before) = inl (All-append IsBefore ks more h before)
cut_off G r ks more h (inr run) = inr (later G r ks more h run)

glue :
    (G : Goal) (ks : List Call)
    → All IsBefore ks
    → (r : Outcome LibaflError (Unit {0})) (more : List Call) → Fuzzed (after ks G) r more
    → Fuzzed G r (ks ++ more)
glue G ks h (ok _) more run = later G (ok tt) ks more h run
glue G ks h (err e) more ends = cut_off G (err e) ks more h ends
glue G ks h panic more ends = cut_off G panic ks more h ends

-- Where the loop has been entered, its end is that of the run.
pub Fuzzed-entered :
    (G : Goal) (r : Outcome LibaflError (Unit {0})) → G r [] → Fuzzed G r (fuzzing ∷ [])
Fuzzed-entered G (ok _) g = ([], tt, g, refl)
Fuzzed-entered G (err e) g = inr ([], tt, g, refl)
Fuzzed-entered G panic g = inr ([], tt, g, refl)

module _ {A : Type 0} (h : List Call) where
  next_part :
      (P : A → List Call → Type 0) (G : Goal) (f : A → Client (Unit {0}))
      → ((a : A) (ks : List Call) → P a ks → EndsAt (h ++ ks) (f a) (Fuzzed (after ks G)))
      → (r : Outcome LibaflError A) (ks : List Call) → Part P r ks
      → NextAt h f (Fuzzed G) r ks
  next_part P G f next (ok a) ks (before, p) = EndsAt-impl (next a ks p) (glue G ks before)
  next_part P G f next (err e) ks before = inl before
  next_part P G f next panic ks before = inl before

  -- A part of the set-up, and what comes behind it at the history that it leaves.
  pub then-EndsAt :
      (P : A → List Call → Type 0) (G : Goal) {m : Client A} {f : A → Client (Unit {0})}
      → EndsAt h m (Part P)
      → ((a : A) (ks : List Call) → P a ks → EndsAt (h ++ ks) (f a) (Fuzzed (after ks G)))
      → EndsAt h (m >>= f) (Fuzzed G)
  then-EndsAt P G em next = EndsAt->>= (EndsAt-impl em (next_part P G _ next))
