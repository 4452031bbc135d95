-- ===== src/Stage/Default.antt =====
-- nn_fuzz/src/components/stages.rs: the method `perform_mutational` that `MutationalStage` gives to
-- its stages, and that `CustomMutationalStage` replaces.
use nn_fuzz.Base.{ℕ, zero, suc, ◌+◌, true}
use nn_fuzz.Base.Program.{ask, pure, ◌>>=◌, ◌>>◌}
use nn_fuzz.External.{Libafl}
use nn_fuzz.Fuzzer.{
  Testcases, Env, Fuzz, tell, corpus_get, load_input, mutate, process_execution, post_exec,
}
use nn_fuzz.Fuzzer.ExecutesInput.{execute_input}

module _ {L : Libafl} {T : Testcases L} (env : Env L T) where
  -- The loop's body.
  unfoldable pub iteration : ℕ → ℕ → Fuzz L T (Unit {0})
  iteration corpus_idx i = do
    tell env (corpus_get corpus_idx)
    loaded ← ask (load_input corpus_idx) (λ h. env.loaded h corpus_idx)
    input ← ask (mutate loaded i) (λ h. env.mutated h loaded i)
    exit_kind ← execute_input env input
    result ← process_execution env input exit_kind true
    tell env (post_exec i result.1)

  -- `for i in 0..num`, with the rounds that are left and the number of this one.
  unfoldable pub iterate : ℕ → ℕ → ℕ → Fuzz L T (Unit {0})
  unfolding iteration
  iterate zero i corpus_idx = pure tt
  iterate (suc n) i corpus_idx = iteration corpus_idx i >> iterate n (i + 1) corpus_idx

  -- `iterations` is the stage's own method.
  unfoldable pub perform_mutational : Fuzz L T ℕ → ℕ → Fuzz L T (Unit {0})
  unfolding iterate
  perform_mutational iterations corpus_idx = do num ← iterations; iterate num 0 corpus_idx
