-- ===== src/Stage/Depths.antt =====
-- The depths that one iteration of `CustomMutationalStage` gives to its test cases.
pub mod Runs
use nn_fuzz.Base.{
  ℕ, zero, suc, ◌+◌, ◌%◌, ◌==◌, ◌≡◌, refl, sym, ap, ◌∙◌, ltb, ◌⊎◌, inl, inr, List, [], ◌∷◌, ◌++◌,
  Option, none, some, Bool, true, false, All, arith, Option-cases, Bool-cases, if◌then◌else◌,
}
use mathlib.Core.Path.{subst}
use nn_fuzz.Base.Outcome.{Outcome, ok, err, panic}
use nn_fuzz.Base.Action.{◌>>=◌, ◌>>◌, >>=-keeps, >>=-keeps-eq, >>=-ok}
use nn_fuzz.Base.Program.{ask}
use nn_fuzz.Std.Decimal.{u64_mod}
use nn_fuzz.External.{Libafl, LibaflError}
use nn_fuzz.Fuzzer.{
  ExecuteInputResult, corpus, solution, Testcases, Call, History, Env, Fuzz, tell, corpus_get,
  load_input, mutate, post_exec, process_execution,
}
use nn_fuzz.Fuzzer.ExecutesInput.{execute_input}
use nn_fuzz.Fuzzer.Filing.{IsFiled}
use nn_fuzz.Fuzzer.Filing.Laws.{process_execution-IsFiled}
use nn_fuzz.Stage.Family.{Depths}
use nn_fuzz.Stage.{
  CustomMutationalStage, Staged, depth_of, in_fuzz, existing, next_depth, add_depth, raise, deepen,
  mutate_once, iteration, iterate, iterations, perform_mutational,
}

-- A test case that was found from one of this depth, and is another one.
abbrev pub IsChild : ℕ → ℕ → ℕ × ℕ → Type 0
IsChild parent depth entry = (entry.1 ≡ (depth + 1) % u64_mod) × (¬ (entry.0 ≡ parent))

-- Children were entered, and nothing else.
abbrev pub HasChildren : ℕ → ℕ → Depths → Depths → Type 0
HasChildren parent depth known ds =
    (new : Depths) × All (IsChild parent depth) new × (ds ≡ new ++ known)

-- The depth of the parent, and the depths with it among them.
abbrev pub parent_depth : ℕ → Depths → ℕ
parent_depth parent ds = elim (depth_of parent ds) [ some depth ↦ depth | none ↦ 1 ]

abbrev pub with_parent : ℕ → Depths → Depths
with_parent parent ds = elim (depth_of parent ds) [ some _ ↦ ds | none ↦ (parent, 1) ∷ ds ]

pub depth_of-children :
    (parent depth : ℕ) (new known : Depths)
    → All (IsChild parent depth) new
    → depth_of parent (new ++ known) ≡ depth_of parent known
unfolding depth_of
depth_of-children parent depth [] known h = refl
depth_of-children parent depth ((i, d) ∷ new) known ((_, other), h) =
    ground (arith, other, depth_of-children parent depth new known h)

module _ {L : Libafl} {T : Testcases L} (env : Env L T) (checks : Bool) where
  next_depth-ok :
      (depth new : ℕ) (s t : CustomMutationalStage L T)
      → next_depth checks depth s ≡ (ok new, t)
      → new ≡ (depth + 1) % u64_mod
  unfolding next_depth
  next_depth-ok depth new s t h = ground (arith, h)

  next_depth-depths :
      (depth : ℕ) (s : CustomMutationalStage L T) → (next_depth checks depth s).1.depths ≡ s.depths
  unfolding next_depth
  next_depth-depths depth s = ground arith

  raise-depths :
      (depth : ℕ) (s : CustomMutationalStage L T) → (raise env checks depth s).1.depths ≡ s.depths
  unfolding raise
  raise-depths depth s = elim (Bool-cases (ltb s.max_depth depth)) [
    | inl e ↦ rw e refl
    | inr e ↦ rw e refl
  ]

  module _ (parent : ℕ)
      (fresh : (h : History L T) (t : T.Testcase) (id : ℕ)
        → env.new_id h t ≡ inr id
        → ¬ (id ≡ parent)) where
    filed_fresh :
        (input : L.Input) (k : L.ExitKind) (r : Outcome LibaflError (ExecuteInputResult × Option ℕ))
        (ks : List (Call L T))
        → IsFiled env input k true r ks
        → (res : ExecuteInputResult) (added : Option ℕ) → r ≡ ok (res, added)
        → (idx : ℕ) → added ≡ some idx
        → ¬ (idx ≡ parent)
    filed_fresh input k (ok (ExecuteInputResult.none, id)) ks filed res added e idx is =
        absurd (let none_is = filed.no_id in cc)
    filed_fresh input k (ok (solution, id)) ks filed res added e idx is =
        absurd (let none_is = filed.no_id in cc)
    filed_fresh input k (ok (corpus, id)) ks filed res added e idx is = λ same.
        let (h, given) = filed.given in
        let is_id = filed.is_id in fresh h filed.testcase filed.idx given cc
    filed_fresh input k (err x) ks filed res added e idx is = absurd cc
    filed_fresh input k panic ks filed res added e idx is = absurd cc

    processed_fresh :
        (input : L.Input) (k : L.ExitKind) (s t : CustomMutationalStage L T)
        (result : ExecuteInputResult × Option ℕ)
        → in_fuzz (process_execution env input k true) s ≡ (ok result, t)
        → (idx : ℕ) → result.1 ≡ some idx
        → ¬ (idx ≡ parent)
    processed_fresh input k s t result e =
        let (ks, _, filed) = (process_execution-IsFiled env input k true).calls s.history in
        filed_fresh input k _ ks filed result.0 result.1 (ap (λ x. x.0) e)

    module _ (depth : ℕ) (known : Depths) where
      abbrev pub Grown : CustomMutationalStage L T → Type 0
      Grown s = HasChildren parent depth known s.depths

      entered :
          (idx new : ℕ) (s : CustomMutationalStage L T)
          → ¬ (idx ≡ parent)
          → new ≡ (depth + 1) % u64_mod
          → Grown s
          → Grown ((add_depth idx new >> raise env checks new) s).1
      unfolding add_depth
      entered idx new s other deep (children, all, e) = (
        (idx, new) ∷ children,
        ((deep, other), all),
        raise-depths new (record s { depths = (idx, new) ∷ s.depths })
            ∙ ap (λ ds. (idx, new) ∷ ds) e,
      )

      deepen-Grown :
          (added : Option ℕ) (s : CustomMutationalStage L T)
          → ((idx : ℕ) → added ≡ some idx → ¬ (idx ≡ parent))
          → Grown s
          → Grown (deepen env checks depth added s).1
      unfolding deepen
      deepen-Grown none s other h = h
      deepen-Grown (some idx) s other h =
          >>=-keeps Grown (in_fuzz (tell env (corpus_get idx)))
            (λ _. next_depth checks depth >>= λ new. add_depth idx new >> raise env checks new) s h
            (λ _ t ht.
              >>=-keeps-eq Grown (next_depth checks depth)
                (λ new. add_depth idx new >> raise env checks new) t
                (rw (next_depth-depths depth t) ht)
                (λ new u e hu.
                  entered idx new u (other idx refl) (next_depth-ok depth new t u e) hu))

      -- A step that enters nothing but children.
      pub record Grows {A : Type 0} (m : Staged L T A) : Type 0 where
        pub step : (s : CustomMutationalStage L T) → Grown s → Grown (m s).1

      in_fuzz-Grows : {A : Type 0} (m : Fuzz L T A) → Grows (in_fuzz m)
      in_fuzz-Grows m = record { step = λ s h. h }

      -- Behind a step of the fuzzer, which may tell something of its result.
      behind :
          {A B : Type 0} (m : Fuzz L T A) (f : A → Staged L T B)
          → ((a : A) (s t : CustomMutationalStage L T) → in_fuzz m s ≡ (ok a, t) → Grows (f a))
          → Grows (in_fuzz m >>= f)
      behind m f next = record {
        step = λ s h. >>=-keeps-eq Grown (in_fuzz m) f s h (λ a t e ht. (next a s t e).step t ht);
      }

      abbrev finish : ℕ → ExecuteInputResult × Option ℕ → Staged L T (Unit {0})
      finish i result =
          deepen env checks depth result.1 >> in_fuzz (tell env (post_exec i result.1))

      finish-Grows :
          (i : ℕ) (result : ExecuteInputResult × Option ℕ)
          → ((idx : ℕ) → result.1 ≡ some idx → ¬ (idx ≡ parent))
          → Grows (finish i result)
      finish-Grows i result other = record {
        step = λ s h.
            >>=-keeps Grown (deepen env checks depth result.1)
              (λ _. in_fuzz (tell env (post_exec i result.1))) s (deepen-Grown result.1 s other h)
              (λ _ t ht. ht);
      }

      abbrev run_once : ℕ → L.Input → Staged L T (Unit {0})
      run_once i input = in_fuzz (execute_input env input) >>= λ k.
          in_fuzz (process_execution env input k true) >>= finish i

      run_once-Grows : (i : ℕ) (input : L.Input) → Grows (run_once i input)
      run_once-Grows i input =
          behind (execute_input env input)
            (λ k. in_fuzz (process_execution env input k true) >>= finish i)
            (λ k _ _ _.
              behind (process_execution env input k true) (finish i)
                (λ result s t e. finish-Grows i result (processed_fresh input k s t result e)))

      pub mutate_once-Grows : (i : ℕ) → Grows (mutate_once env checks parent i depth)
      unfolding mutate_once
      mutate_once-Grows i =
          behind (ask (load_input parent) (λ h. env.loaded h parent))
            (λ loaded. in_fuzz (ask (mutate loaded i) (λ h. env.mutated h loaded i)) >>= run_once i)
            (λ loaded _ _ _.
              behind (ask (mutate loaded i) (λ h. env.mutated h loaded i)) (run_once i)
                (λ input _ _ _. run_once-Grows i input))
