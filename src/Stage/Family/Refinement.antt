-- ===== src/Stage/Family/Refinement.antt =====
-- Runs of `CustomMutationalStage` against the relation `Family`.
use nn_fuzz.Base.{
  ℕ, zero, suc, ◌+◌, ◌≡◌, refl, sym, ltb, inl, inr, ◌∷◌, Option, Option-cases, none, some, Bool,
  true, false, arith, if◌then◌else◌,
}
use mathlib.Core.Path.{subst}
use nn_fuzz.Base.Text.{codes}
use nn_fuzz.Base.Outcome.{Outcome, ok}
use nn_fuzz.Base.Action.{◌>>=◌, ◌>>◌, >>=-keeps, >>=-leads, >>=-leads-eq, >>=-ok}
use nn_fuzz.Base.Program.{ask}
use nn_fuzz.External.{Libafl, LibaflError}
use nn_fuzz.Messages.{Event}
use nn_fuzz.Fuzzer.{
  ExecuteInputResult, Testcases, Env, Fuzz, tell, fire, corpus_get, load_input, mutate, post_exec,
  process_execution,
}
use nn_fuzz.Fuzzer.ExecutesInput.{execute_input}
use nn_fuzz.Stage.{
  CustomMutationalStage, Staged, depth_of, in_fuzz, existing, next_depth, add_depth, raise, deepen,
  mutate_once, iteration, iterate, iterations, perform_mutational,
}
use nn_fuzz.Stage.Family.{Depths, IsNext, Family, start, root, child}

module _ {L : Libafl} {T : Testcases L} (env : Env L T) (checks : Bool) where
  next_depth-state : (depth : ℕ) (s : CustomMutationalStage L T) → (next_depth checks depth s).1 ≡ s
  unfolding next_depth
  next_depth-state depth s = ground arith

  next_depth-IsNext :
      (depth new : ℕ) (s t : CustomMutationalStage L T)
      → next_depth checks depth s ≡ (ok new, t)
      → IsNext checks depth new
  unfolding next_depth
  next_depth-IsNext depth new s t e = record {
    wrapped = ground (arith, e);
    exact = λ c. ground (arith, e, c);
  }

  module _ (greatest : ℕ) (known : Depths) where
    abbrev InFamily : CustomMutationalStage L T → Type 0
    InFamily s = Family checks greatest known s.max_depth s.depths

    module _ (parent depth : ℕ) where
      -- With the depth of the parent in hand.
      record Holding (s : CustomMutationalStage L T) : Type 0 where
        family : InFamily s
        held : depth_of parent s.depths ≡ some depth

      raised-InFamily :
          (b : Bool) (idx new : ℕ) (told : Fuzz L T (Unit {0})) (s : CustomMutationalStage L T)
          → ltb s.max_depth new ≡ b
          → IsNext checks depth new
          → Holding s
          → let t = record s { depths = (idx, new) ∷ s.depths } in
            InFamily (if b then in_fuzz told (record t { max_depth = new }) else (ok tt, t)).1
      raised-InFamily true idx new told s more next h =
          child parent depth idx new h.family h.held next (rw more refl) refl
      raised-InFamily false idx new told s more next h =
          child parent depth idx new h.family h.held next (rw more refl) refl

      entered-InFamily :
          (idx new : ℕ) (s : CustomMutationalStage L T)
          → IsNext checks depth new
          → Holding s
          → InFamily ((add_depth idx new >> raise env checks new) s).1
      unfolding add_depth raise
      entered-InFamily idx new s next h =
          raised-InFamily (ltb s.max_depth new) idx new
            (tell env (fire (Event.update_user_stats (codes "max_depth") (L.number new)))) s refl
            next h

      -- A step that enters children of the parent only.
      record Bears {A : Type 0} (m : Staged L T A) : Type 0 where
        step : (s : CustomMutationalStage L T) → Holding s → InFamily (m s).1

      behind :
          {A B : Type 0} (m : Fuzz L T A) (f : A → Staged L T B)
          → ((a : A) → Bears (f a))
          → Bears (in_fuzz m >>= f)
      behind m f next = record {
        step = λ s h.
            >>=-leads Holding InFamily (in_fuzz m) f s (record { family = h.family; held = h.held })
              (λ a t ht. (next a).step t ht) (λ t ht. ht.family);
      }

      enter-Bears :
          (idx : ℕ)
          → Bears (next_depth checks depth >>= λ new. add_depth idx new >> raise env checks new)
      enter-Bears idx = record {
        step = λ s h.
            >>=-leads-eq Holding InFamily (next_depth checks depth)
              (λ new. add_depth idx new >> raise env checks new) s (rw (next_depth-state depth s) h)
              (λ new t e ht. entered-InFamily idx new t (next_depth-IsNext depth new s t e) ht)
              (λ t ht. ht.family);
      }

      deepen-Bears : (added : Option ℕ) → Bears (deepen env checks depth added)
      unfolding deepen
      deepen-Bears none = record { step = λ s h. h.family }
      deepen-Bears (some idx) = record {
        step =
            (behind (tell env (corpus_get idx))
              (λ _. next_depth checks depth >>= λ new. add_depth idx new >> raise env checks new)
              (λ _. enter-Bears idx)).step;
      }

      abbrev finish : ℕ → ExecuteInputResult × Option ℕ → Staged L T (Unit {0})
      finish i result =
          deepen env checks depth result.1 >> in_fuzz (tell env (post_exec i result.1))

      finish-Bears : (i : ℕ) (result : ExecuteInputResult × Option ℕ) → Bears (finish i result)
      finish-Bears i result = record {
        step = λ s h.
            >>=-keeps InFamily (deepen env checks depth result.1)
              (λ _. in_fuzz (tell env (post_exec i result.1))) s ((deepen-Bears result.1).step s h)
              (λ _ t ht. ht);
      }

      abbrev run_once : ℕ → L.Input → Staged L T (Unit {0})
      run_once i input = in_fuzz (execute_input env input) >>= λ k.
          in_fuzz (process_execution env input k true) >>= finish i

      mutate_once-Bears : (i : ℕ) → Bears (mutate_once env checks parent i depth)
      unfolding mutate_once
      mutate_once-Bears i =
          behind (ask (load_input parent) (λ h. env.loaded h parent))
            (λ loaded. in_fuzz (ask (mutate loaded i) (λ h. env.mutated h loaded i)) >>= run_once i)
            (λ loaded.
              behind (ask (mutate loaded i) (λ h. env.mutated h loaded i)) (run_once i) (λ input.
                behind (execute_input env input)
                  (λ k. in_fuzz (process_execution env input k true) >>= finish i)
                  (λ k. behind (process_execution env input k true) (finish i) (finish-Bears i))))

    -- The depth of the test case that the stage works on, which is a root if it has none.
    existing-Holding :
        (idx : ℕ) (s : CustomMutationalStage L T)
        → InFamily s
        → (d : ℕ) × (t : CustomMutationalStage L T) × (existing idx s ≡ (ok d, t)) × Holding idx d t
    unfolding existing depth_of
    existing-Holding idx s h = elim (Option-cases (depth_of idx s.depths)) [
      | inl e ↦ (
        1,
        record s { depths = (idx, 1) ∷ s.depths },
        ground (arith, e),
        record { family = root idx h e refl; held = ground arith },
      )
      | inr (d, e) ↦ (d, s, ground (arith, e), record { family = h; held = e })
    ]

    iteration-InFamily :
        (idx i : ℕ) (s : CustomMutationalStage L T)
        → InFamily s
        → InFamily (iteration env checks idx i s).1
    unfolding iteration
    iteration-InFamily idx i s h =
        >>=-keeps InFamily (in_fuzz (tell env (corpus_get idx)))
          (λ _. existing idx >>= mutate_once env checks idx i) s h
          (λ _ t ht.
            let (d, u, e, hu) = existing-Holding idx t ht in
            subst (λ (x : Outcome LibaflError (Unit {0}) × CustomMutationalStage L T). InFamily x.1)
              (sym (>>=-ok (existing idx) (mutate_once env checks idx i) t u d e))
              ((mutate_once-Bears idx d i).step u hu))

    iterate-InFamily :
        (n i idx : ℕ) (s : CustomMutationalStage L T)
        → InFamily s
        → InFamily (iterate env checks n i idx s).1
    unfolding iterate
    iterate-InFamily zero i idx s h = h
    iterate-InFamily (suc n) i idx s h =
        >>=-keeps InFamily (iteration env checks idx i) (λ _. iterate env checks n (i + 1) idx) s
          (iteration-InFamily idx i s h) (λ _ t ht. iterate-InFamily n (i + 1) idx t ht)

  -- Whatever the environment answers and however a run of the stage ends, in a build with overflow
  -- checks or without, the run changes the greatest depth and the depths by steps of the family only:
  -- a test case without a depth is entered as a root, and one that was found from another of the
  -- known depth is entered one deeper, exactly with overflow checks and modulo 2 to the 64 without,
  -- which raises the greatest depth to its own if that was below.
  pub perform_mutational-Family :
      (corpus_idx : ℕ) (s : CustomMutationalStage L T)
      → let t = (perform_mutational env checks corpus_idx s).1 in
        Family checks s.max_depth s.depths t.max_depth t.depths
  unfolding perform_mutational
  perform_mutational-Family corpus_idx s =
      >>=-keeps (InFamily s.max_depth s.depths) (in_fuzz (iterations env checks))
        (λ num. iterate env checks num 0 corpus_idx) s (start refl refl)
        (λ num t ht. iterate-InFamily s.max_depth s.depths num 0 corpus_idx t ht)
