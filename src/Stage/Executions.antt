-- ===== src/Stage/Executions.antt =====
-- How often a run of `CustomMutationalStage` executes the target.
use mathlib.Core.Path.{subst}
use nn_fuzz.Base.{
  ℕ, zero, suc, ◌+◌, ◌≤◌, ◌<◌, ◌≡◌, refl, ap, ◌⊎◌, inl, inr, List, [], ◌∷◌, ◌++◌, Option, none,
  some, Bool, true, false, arith, ltb, Bool-cases, Option-cases, IsPrefix,
}
use nn_fuzz.Base.Text.{codes}
use nn_fuzz.Base.Outcome.{ok}
use nn_fuzz.Base.Action.{ends}
use nn_fuzz.Base.Program.{
  Ends, Ends-ask, Ends-pure, Ends->>=, Ends-impl, Post, kinds, kinds-append, ask, pure,
}
use nn_fuzz.External.{Libafl, LibaflError}
use nn_fuzz.Messages.{Event}
use nn_fuzz.Fuzzer.{
  Call, Testcases, corpus_get, load_input, mutate, rand_below, fire, History, Env, tell, post_exec,
}
use nn_fuzz.Fuzzer.Calls.{Kind, kind}
use nn_fuzz.Fuzzer.Laws.{process_execution-Ends}
use nn_fuzz.Fuzzer.ExecutesInput.{execute_input}
use nn_fuzz.Stage.Laws.{existing-history, next_depth-history}
use nn_fuzz.Stage.{
  CustomMutationalStage, in_fuzz, existing, next_depth, add_depth, raise, deepen, mutate_once,
  iteration, iterate, iterations, perform_mutational,
}
use nn_fuzz.Stage.Counting.{
  runs, executions, runs-append, one_more, Counted, counted_processing, Adds, Adds-in_fuzz,
  Adds-aside, Adds->>=,
}

module _ {L : Libafl} {T : Testcases L} (env : Env L T) (checks : Bool) where
  asks_none :
      {A : Type 0} (c : Call L T) (reply : History L T → LibaflError ⊎ A)
      → runs (kind c ∷ []) ≡ 0
      → Adds 0 0 (in_fuzz (ask c reply))
  asks_none c reply none_run =
      Adds-in_fuzz 0 0 (Ends-ask c reply (λ a. omega arith) (λ e. omega arith))

  execute_input-Counted : (input : L.Input) → Ends kind (execute_input env input) (Counted 1 1)
  unfolding execute_input
  execute_input-Counted input = Ends->>= (
      Ends-ask _ _
        (λ _. Ends->>= (
          Ends-ask _ _
            (λ _. Ends->>= (
              Ends-ask _ _
                (λ k. Ends->>= (Ends-ask _ _ (λ _. Ends-pure k (omega arith)) (λ e. omega arith)))
                (λ e. omega arith)))
            (λ e. omega arith)))
        (λ e. omega arith))

  existing-Adds : (corpus_idx : ℕ) → Adds 0 0 (existing {L = L} {T = T} corpus_idx)
  existing-Adds corpus_idx = Adds-aside (existing-history corpus_idx)

  next_depth-Adds : (depth : ℕ) → Adds 0 0 (next_depth {L = L} {T = T} checks depth)
  next_depth-Adds depth = Adds-aside (next_depth-history checks depth)

  add_depth-Adds : (idx depth : ℕ) → Adds 0 0 (add_depth {L = L} {T = T} idx depth)
  unfolding add_depth
  add_depth-Adds idx depth = Adds-aside (λ s. refl)

  telling-Adds :
      (depth : ℕ)
      → Adds 0 0
          (in_fuzz (tell env (fire (Event.update_user_stats (codes "max_depth") (L.number depth)))))
  telling-Adds depth = asks_none _ _ refl

  raise-Adds : (depth : ℕ) → Adds 0 0 (raise env checks depth)
  unfolding raise
  raise-Adds depth = record {
    most = λ s. elim (Bool-cases (ltb s.max_depth depth)) [
      | inl more ↦ rw more ((telling-Adds depth).most (record s { max_depth = depth }))
      | inr e ↦ rw e (omega arith)
    ];
    least = λ s s' a run. elim (Bool-cases (ltb s.max_depth depth)) [
      | inl more ↦
          (telling-Adds depth).least (record s { max_depth = depth }) s' a (rw (more, raise) at run)
      | inr e ↦ omega (arith, ap (λ x. executions (x.1.history)) (rw (e, raise) at run))
    ];
  }

  deepen-Adds : (depth : ℕ) (added : Option ℕ) → Adds 0 0 (deepen env checks depth added)
  unfolding deepen
  deepen-Adds depth none = Adds-aside (λ s. refl)
  deepen-Adds depth (some idx) = Adds->>= 0 0 0 0 (asks_none (corpus_get idx) _ refl) (λ _.
      Adds->>= 0 0 0 0 (next_depth-Adds depth)
        (λ new. Adds->>= 0 0 0 0 (add_depth-Adds idx new) (λ _. raise-Adds new)))

  iteration-Adds : (corpus_idx i : ℕ) → Adds 1 1 (iteration env checks corpus_idx i)
  unfolding iteration mutate_once
  iteration-Adds corpus_idx i = Adds->>= 0 0 1 1 (asks_none (corpus_get corpus_idx) _ refl) (λ _.
      Adds->>= 0 0 1 1 (existing-Adds corpus_idx) (λ depth.
        Adds->>= 0 0 1 1 (asks_none (load_input corpus_idx) _ refl) (λ loaded.
          Adds->>= 0 0 1 1 (asks_none (mutate loaded i) _ refl) (λ input.
            Adds->>= 1 1 0 0 (Adds-in_fuzz 1 1 (execute_input-Counted input)) (λ exit_kind.
              Adds->>= 0 0 0 0
                (Adds-in_fuzz 0 0
                  (Ends-impl (process_execution-Ends env input exit_kind true) counted_processing))
                (λ result.
                  Adds->>= 0 0 0 0 (deepen-Adds depth result.1)
                    (λ _. asks_none (post_exec i result.1) _ refl)))))))

  iterate-Adds : (n i corpus_idx : ℕ) → Adds n n (iterate env checks n i corpus_idx)
  unfolding iterate
  iterate-Adds zero i corpus_idx = Adds-aside (λ s. refl)
  iterate-Adds (suc n) i corpus_idx =
      subst (λ k. Adds k k (iterate env checks (suc n) i corpus_idx)) (one_more n)
        (Adds->>= 1 1 n n (iteration-Adds corpus_idx i) (λ _. iterate-Adds n (i + 1) corpus_idx))

  drawn :
      (corpus_idx : ℕ) (s : CustomMutationalStage L T)
      → perform_mutational env checks corpus_idx s
        ≡ iterate env checks
            (1 + env.below s.history 128)
            0
            corpus_idx
            (record s { history = s.history ++ rand_below 128 ∷ [] })
  unfolding perform_mutational iterations ask pure nn_fuzz.Base.Program.◌>>=◌
  drawn corpus_idx s = refl

  executions-drawn : (h : History L T) → executions (h ++ rand_below 128 ∷ []) ≡ executions h
  unfolding kinds
  executions-drawn h = omega (
    arith,
    ap runs (kinds-append kind h (rand_below 128 ∷ [])),
    runs-append (kinds kind h) (Kind.others ∷ []),
  )

  -- With a random number below 128 where one below 128 is asked for: a run of the stage draws one, at
  -- its start, and one more is the number of its iterations, from 1 to 128. However it ends, it has
  -- executed the target at most that often; if it succeeds, exactly that often.
  pub perform_mutational_executions :
      ((h : History L T) → env.below h 128 < 128)
      → (corpus_idx : ℕ) (s : CustomMutationalStage L T)
      → let (r, s') = perform_mutational env checks corpus_idx s in
        let num = 1 + env.below s.history 128 in
        (1 ≤ num)
        × (num ≤ 128)
        × (executions s'.history ≤ executions s.history + num)
        × ((executions s'.history ≡ executions s.history + num) ⊎ (¬ (r ≡ ok tt)))
  perform_mutational_executions below corpus_idx s =
      let num : ℕ = 1 + env.below s.history 128 in
      let t = record s { history = s.history ++ rand_below 128 ∷ [] } in
      let adds = iterate-Adds num 0 corpus_idx in
      let most = adds.most t in
      rw (drawn corpus_idx s) (
        omega arith,
        omega (arith, below s.history),
        omega (arith, most, executions-drawn s.history),
        elim (ends (iterate env checks num 0 corpus_idx t)) [
          | inl (_, u, e) ↦ inl (
              omega (
                arith,
                most,
                adds.least t u tt e,
                executions-drawn s.history,
                ap (λ x. executions (x.1.history)) e,
              ))
          | inr (inl (x, u, e)) ↦ inr (λ good. cc)
          | inr (inr (u, e)) ↦ inr (λ good. cc)
        ],
      )
