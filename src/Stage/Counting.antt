-- ===== src/Stage/Counting.antt =====
-- Counting the executions of the target in the steps of `CustomMutationalStage`.
use nn_fuzz.Base.{
  ℕ, suc, ◌+◌, ◌≤◌, ◌≡◌, refl, ap, inl, inr, List, [], ◌∷◌, ◌++◌, Option, Bool, true, false, arith,
  IsPrefix,
}
use nn_fuzz.Base.Outcome.{Outcome, ok, err, panic}
use nn_fuzz.Base.Action.{◌>>=◌, ends, >>=-eq-ok, >>=-leads}
use nn_fuzz.Base.Program.{Ends, Post, kinds}
use nn_fuzz.External.{Libafl, LibaflError}
use nn_fuzz.Fuzzer.{ExecuteInputResult, corpus, solution, Testcases, History, Fuzz}
use nn_fuzz.Fuzzer.Calls.{Kind, run, kind}
use nn_fuzz.Fuzzer.Laws.{Processed, protocol}
use nn_fuzz.Stage.{CustomMutationalStage, Staged, in_fuzz}

-- The executions of the target among calls.
abbrev pub runs : List Kind → ℕ
runs [] = 0
runs (run ∷ ks) = suc (runs ks)
runs (_ ∷ ks) = runs ks

abbrev pub executions : {L : Libafl} {T : Testcases L} → History L T → ℕ
executions h = runs (kinds kind h)

pub runs-append : (xs ys : List Kind) → runs (xs ++ ys) ≡ runs xs + runs ys
runs-append [] ys = omega arith
runs-append (x ∷ xs) ys = ground (arith, runs-append xs ys)

runs-IsPrefix : (xs ys : List Kind) → IsPrefix xs ys → runs xs ≤ runs ys
runs-IsPrefix [] ys h = omega arith
runs-IsPrefix (x ∷ xs) [] h = absurd h
runs-IsPrefix (x ∷ xs) (y ∷ ys) (same, h) = ground (arith, runs-IsPrefix xs ys h)

runs-protocol : (res : ExecuteInputResult) (send : Bool) → runs (protocol res send) ≡ 0
runs-protocol ExecuteInputResult.none send = refl
runs-protocol solution true = refl
runs-protocol solution false = refl
runs-protocol corpus true = refl
runs-protocol corpus false = refl

pub one_more : (n : ℕ) → 1 + n ≡ suc n
one_more n = omega arith

-- Calls with at most `hi` executions, and at least `lo` if they end well.
abbrev pub Counted : {A : Type 0} → ℕ → ℕ → Post LibaflError Kind A
Counted lo hi (ok _) ks = (lo ≤ runs ks) × (runs ks ≤ hi)
Counted lo hi (err _) ks = runs ks ≤ hi
Counted lo hi panic ks = runs ks ≤ hi

module _ {A : Type 0} (lo hi : ℕ) where
  counted_most : (r : Outcome LibaflError A) (ks : List Kind) → Counted lo hi r ks → runs ks ≤ hi
  counted_most (ok a) ks h = h.1
  counted_most (err e) ks h = h
  counted_most panic ks h = h

  counted_least :
      (r : Outcome LibaflError A) (a : A) (ks : List Kind)
      → r ≡ ok a
      → Counted lo hi r ks
      → lo ≤ runs ks
  counted_least (ok b) a ks e h = h.0
  counted_least (err x) a ks e h = absurd (cc)
  counted_least panic a ks e h = absurd (cc)

pub counted_processing :
    (r : Outcome LibaflError (ExecuteInputResult × Option ℕ)) (ks : List Kind)
    → Processed true r ks
    → Counted 0 0 r ks
counted_processing (ok (res, idx)) ks (kept, _) =
    (omega arith, omega (arith, ap runs kept, runs-protocol res true))
counted_processing (err e) ks (inl p) = runs-IsPrefix ks (protocol ExecuteInputResult.none true) p
counted_processing (err e) ks (inr (inl p)) = runs-IsPrefix ks (protocol solution true) p
counted_processing (err e) ks (inr (inr p)) = runs-IsPrefix ks (protocol corpus true) p
counted_processing panic ks never = absurd never

module _ {L : Libafl} {T : Testcases L} where
  -- A step of the stage with at most `hi` executions, and at least `lo` if it ends well.
  pub record Adds {A : Type 0} (lo hi : ℕ) (m : Staged L T A) : Type 0 where
    pub most :
        (s : CustomMutationalStage L T) → executions (m s).1.history ≤ executions s.history + hi
    pub least :
        (s s' : CustomMutationalStage L T) (a : A)
        → m s ≡ (ok a, s')
        → executions s.history + lo ≤ executions s'.history

  pub Adds-in_fuzz :
      {A : Type 0} (lo hi : ℕ) {m : Fuzz L T A}
      → Ends kind m (Counted lo hi)
      → Adds lo hi (in_fuzz m)
  Adds-in_fuzz lo hi {m} ends = record {
    most = λ s.
        let (ks, grown, q) = ends.calls s.history in
        omega (
          arith,
          ap runs grown,
          runs-append (kinds kind s.history) ks,
          counted_most lo hi (m s.history).0 ks q,
        );
    least = λ s s' a run.
        let (ks, grown, q) = ends.calls s.history in
        omega (
          arith,
          ap runs grown,
          ap (λ x. executions (x.1.history)) run,
          runs-append (kinds kind s.history) ks,
          counted_least lo hi (m s.history).0 a ks (ap (λ x. x.0) run) q,
        );
  }

  -- A step that leaves the calls alone.
  pub Adds-aside :
      {A : Type 0} {m : Staged L T A}
      → ((s : CustomMutationalStage L T) → (m s).1.history ≡ s.history)
      → Adds 0 0 m
  Adds-aside {m} same = record {
    most = λ s. omega (arith, ap executions (same s));
    least =
        λ s s' a run. omega (arith, ap executions (same s), ap (λ x. executions (x.1.history)) run);
  }

  pub Adds->>= :
      {A B : Type 0} (lo hi lo' hi' : ℕ) {m : Staged L T A} {f : A → Staged L T B}
      → Adds lo hi m
      → ((a : A) → Adds lo' hi' (f a))
      → Adds (lo + lo') (hi + hi') (m >>= f)
  Adds->>= lo hi lo' hi' {m} {f} first next = record {
    most = λ s.
        >>=-leads (λ t. executions t.history ≤ executions s.history + hi)
          (λ t. executions t.history ≤ executions s.history + (hi + hi')) m f s (first.most s)
          (λ a t h. omega (arith, (next a).most t)) (λ t h. omega arith);
    least = λ s s' b run.
        let (a, t, ran, rest) = >>=-eq-ok m f s run in
        omega (arith, first.least s t a ran, (next a).least t s' b rest);
  }
