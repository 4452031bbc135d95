-- ===== src/Stage/Refinement.antt =====
-- `CustomMutationalStage::perform_mutational` against the method of `MutationalStage` that it replaces.
use nn_fuzz.Base.{
  ℕ, zero, suc, ◌+◌, ◌≡◌, refl, sym, ap, ◌∙◌, inl, inr, Option, none, some, Bool, true, false, ltb,
  Bool-cases,
}
use nn_fuzz.Base.Text.{codes}
use nn_fuzz.Base.Outcome.{ok}
use nn_fuzz.Base.Action.{◌>>=◌, >>=-eq-ok}
use nn_fuzz.Base.Blind.{Alike, Alike-hidden, IsBlind-pure, IsBlind->>=}
use nn_fuzz.Base.Program as Program
use nn_fuzz.Base.Program.{ask}
use nn_fuzz.External.{Libafl}
use nn_fuzz.Messages.{Event}
use nn_fuzz.Fuzzer.{
  Call, Testcases, corpus_get, load_input, mutate, rand_below, fire, History, Env, Fuzz, tell,
  post_exec,
}
use nn_fuzz.Stage.{
  default_mutational_max_iterations, CustomMutationalStage, Staged, in_fuzz, existing, next_depth,
  add_depth, raise, deepen, mutate_once, iteration, iterate, iterations, perform_mutational,
}
use nn_fuzz.Stage.Default
use nn_fuzz.Stage.Laws.{existing-history, next_depth-history}
use nn_fuzz.Stage.Unaware.{
  is_fuzzing, fuzzing, unaware, Blind, asking, tell-Blind, execute_input-Blind,
  process_execution-Blind,
}

module _ {L : Libafl} {T : Testcases L} where
  -- Where the stage succeeds, the fuzzer's program succeeds with the same result, from any record of
  -- calls that shows the same fuzzing, and again the records show the same.
  pub record Simulates {A : Type 0} (m : Staged L T A) (n : Fuzz L T A) : Type 0 where
    pub follows :
        (s s' : CustomMutationalStage L T) (h : History L T) (a : A)
        → Alike is_fuzzing s.history h
        → m s ≡ (ok a, s')
        → (h' : History L T) × (n h ≡ (ok a, h')) × Alike is_fuzzing s'.history h'

  -- Where the stage succeeds, no fuzzing was done.
  pub record IsSilent {A : Type 0} (m : Staged L T A) : Type 0 where
    pub quiet :
        (s s' : CustomMutationalStage L T) (a : A)
        → m s ≡ (ok a, s')
        → Alike is_fuzzing s'.history s.history

  Simulates-in_fuzz : {A : Type 0} {m : Fuzz L T A} → Blind m → Simulates (in_fuzz m) m
  Simulates-in_fuzz {m} blind = record {
    follows = λ s s' h a e run.
        let (same, alike) = blind.same s.history h e in
        (
          (m h).1,
          ap (λ r. (r, (m h).1)) (sym same ∙ ap (λ x. x.0) run),
          ap (λ x. fuzzing (x.1.history)) (sym run) ∙ alike,
        );
  }

  Simulates->>= :
      {A B : Type 0} {m : Staged L T A} {n : Fuzz L T A} {f : A → Staged L T B} {g : A → Fuzz L T B}
      → Simulates m n
      → ((a : A) → Simulates (f a) (g a))
      → Simulates (m >>= f) (Program.◌>>=◌ n g)
  Simulates->>= {m} {n} {f} {g} first next = record {
    follows = λ s s' h b e run.
        let (a, t, ran, rest) = >>=-eq-ok m f s run in
        let (h1, ran', e1) = first.follows s t h a e ran in
        let (h2, ran'', e2) = (next a).follows t s' h1 b e1 rest in
        (h2, Program.>>=-ok n g h h1 a ran' ∙ ran'', e2);
  }

  Simulates-behind :
      {A B : Type 0} {m : Staged L T A} {f : A → Staged L T B} {n : Fuzz L T B}
      → IsSilent m
      → ((a : A) → Simulates (f a) n)
      → Simulates (m >>= f) n
  Simulates-behind {m} {f} {n} silent next = record {
    follows = λ s s' h b e run.
        let (a, t, ran, rest) = >>=-eq-ok m f s run in
        (next a).follows t s' h b (silent.quiet s t a ran ∙ e) rest;
  }

  IsSilent->>= :
      {A B : Type 0} {m : Staged L T A} {f : A → Staged L T B}
      → IsSilent m
      → ((a : A) → IsSilent (f a))
      → IsSilent (m >>= f)
  IsSilent->>= {m} {f} first next = record {
    quiet = λ s s' b run.
        let (a, t, ran, rest) = >>=-eq-ok m f s run in
        (next a).quiet t s' b rest ∙ first.quiet s t a ran;
  }

module _ {L : Libafl} {T : Testcases L} (env : Env L T) (checks : Bool) where
  existing-IsSilent : (corpus_idx : ℕ) → IsSilent (existing {L = L} {T = T} corpus_idx)
  existing-IsSilent corpus_idx = record {
    quiet =
        λ s s' d run. ap fuzzing (ap (λ x. x.1.history) (sym run) ∙ existing-history corpus_idx s);
  }

  next_depth-IsSilent : (depth : ℕ) → IsSilent (next_depth {L = L} {T = T} checks depth)
  next_depth-IsSilent depth = record {
    quiet = λ s s' d run.
        ap fuzzing (ap (λ x. x.1.history) (sym run) ∙ next_depth-history checks depth s);
  }

  add_depth-IsSilent : (idx depth : ℕ) → IsSilent (add_depth {L = L} {T = T} idx depth)
  unfolding add_depth
  add_depth-IsSilent idx depth = record {
    quiet = λ s s' d run. ap (λ x. fuzzing (x.1.history)) (sym run);
  }

  -- A call that is no fuzzing.
  aside-IsSilent : (c : Call L T) → is_fuzzing c ≡ false → IsSilent (in_fuzz (tell (unaware env) c))
  unfolding ask
  aside-IsSilent c hidden = record {
    quiet = λ s s' a run.
        ap (λ x. fuzzing (x.1.history)) (sym run) ∙ Alike-hidden is_fuzzing s.history c hidden;
  }

  raise-Alike :
      (depth : ℕ) (s : CustomMutationalStage L T)
      → Alike is_fuzzing (raise (unaware env) checks depth s).1.history s.history
  unfolding raise ask
  raise-Alike depth s = elim (Bool-cases (ltb s.max_depth depth)) [
    | inl more ↦ rw more (
        Alike-hidden is_fuzzing s.history
          (fire (Event.update_user_stats (codes "max_depth") (L.number depth))) refl)
    | inr not_more ↦ rw not_more
  ]

  raise-IsSilent : (depth : ℕ) → IsSilent (raise (unaware env) checks depth)
  raise-IsSilent depth = record {
    quiet = λ s s' a run. ap (λ x. fuzzing (x.1.history)) (sym run) ∙ raise-Alike depth s;
  }

  deepen-IsSilent :
      (depth : ℕ) (added : Option ℕ) → IsSilent (deepen (unaware env) checks depth added)
  unfolding deepen
  deepen-IsSilent depth none = record {
    quiet = λ s s' a run. ap (λ x. fuzzing (x.1.history)) (sym run);
  }
  deepen-IsSilent depth (some idx) = IsSilent->>= (aside-IsSilent (corpus_get idx) refl) (λ _.
      IsSilent->>= (next_depth-IsSilent depth)
        (λ new. IsSilent->>= (add_depth-IsSilent idx new) (λ _. raise-IsSilent new)))

  iteration-Simulates :
      (corpus_idx i : ℕ)
      → Simulates
          (iteration (unaware env) checks corpus_idx i)
          (Default.iteration (unaware env) corpus_idx i)
  unfolding iteration mutate_once Default.iteration
  iteration-Simulates corpus_idx i =
      Simulates->>= (Simulates-in_fuzz (tell-Blind env (corpus_get corpus_idx))) (λ _.
        Simulates-behind (existing-IsSilent corpus_idx) (λ depth.
          Simulates->>=
            (Simulates-in_fuzz (asking env (load_input corpus_idx) (λ v. env.loaded v corpus_idx)))
            (λ loaded.
              Simulates->>=
                (Simulates-in_fuzz (asking env (mutate loaded i) (λ v. env.mutated v loaded i)))
                (λ input.
                  Simulates->>= (Simulates-in_fuzz (execute_input-Blind env input)) (λ exit_kind.
                    Simulates->>=
                      (Simulates-in_fuzz (process_execution-Blind env input exit_kind true))
                      (λ result.
                        Simulates-behind (deepen-IsSilent depth result.1)
                          (λ _. Simulates-in_fuzz (tell-Blind env (post_exec i result.1)))))))))

  iterate-Simulates :
      (n i corpus_idx : ℕ)
      → Simulates
          (iterate (unaware env) checks n i corpus_idx)
          (Default.iterate (unaware env) n i corpus_idx)
  unfolding iterate Default.iterate Program.pure
  iterate-Simulates zero i corpus_idx = Simulates-in_fuzz (IsBlind-pure tt)
  iterate-Simulates (suc n) i corpus_idx =
      Simulates->>= (iteration-Simulates corpus_idx i) (λ _. iterate-Simulates n (i + 1) corpus_idx)

  iterations-Blind : Blind (iterations (unaware env) checks)
  unfolding iterations
  iterations-Blind =
      IsBlind->>=
        (asking env (rand_below default_mutational_max_iterations)
          (λ v. inr (env.below v default_mutational_max_iterations)))
        (λ below. IsBlind-pure (1 + below))

  perform_mutational-Simulates :
      (corpus_idx : ℕ)
      → Simulates
          (perform_mutational (unaware env) checks corpus_idx)
          (Default.perform_mutational (unaware env) (iterations (unaware env) checks) corpus_idx)
  unfolding perform_mutational Default.perform_mutational
  perform_mutational-Simulates corpus_idx =
      Simulates->>= (Simulates-in_fuzz iterations-Blind) (λ num. iterate-Simulates num 0 corpus_idx)

  -- In an environment whose answers do not depend on look-ups of test cases and on the user's
  -- statistics, the stage refines the method that it replaces: where a run of the stage succeeds, a
  -- run of the default method with the same number of iterations succeeds, and the two make the
  -- same calls in the same order, but for those look-ups and statistics, if they did before.
  pub perform_mutational_refines :
      (corpus_idx : ℕ) (s s' : CustomMutationalStage L T) (h : History L T)
      → fuzzing s.history ≡ fuzzing h
      → perform_mutational (unaware env) checks corpus_idx s ≡ (ok tt, s')
      → (h' : History L T) × (Default.perform_mutational
            (unaware env)
            (iterations (unaware env) checks)
            corpus_idx
            h
          ≡ (ok tt, h'))
        × (fuzzing s'.history ≡ fuzzing h')
  perform_mutational_refines corpus_idx s s' h alike run =
      (perform_mutational-Simulates corpus_idx).follows s s' h tt alike run
