-- ===== src/Stage.antt =====
-- nn_fuzz/src/components/stages.rs: `CustomMutationalStage`, which mutates a test case a number of
-- times and keeps the depth of every test case, as metadata of it, and the greatest depth so far.
pub mod Family
pub mod Campaign
pub mod Laws
pub mod Depths
pub mod Default
pub mod Unaware
pub mod Refinement
pub mod Counting
pub mod Executions
use nn_fuzz.Base.{
  ℕ, zero, suc, ◌+◌, ◌%◌, ◌==◌, ltb, inr, List, [], ◌∷◌, Option, none, some, Bool, true,
  if◌then◌else◌,
}
use nn_fuzz.Base.Text.{codes}
use nn_fuzz.Base.Outcome.{ok, panic}
use nn_fuzz.Base.Action.{Action, ◌>>=◌, ◌>>◌}
use nn_fuzz.Std.Decimal.{u64_mod}
use nn_fuzz.External.{Libafl, LibaflError}
use nn_fuzz.Messages.{Event}
use nn_fuzz.Fuzzer.{
  Testcases, History, Env, Fuzz, tell, rand_below, corpus_get, load_input, mutate, fire,
  process_execution,
}
use nn_fuzz.Fuzzer.ExecutesInput.{execute_input}
use nn_fuzz.Base.Program.{ask, pure}
use nn_fuzz.Base.Program as Program

abbrev pub default_mutational_max_iterations : ℕ
default_mutational_max_iterations = 128

-- `depths` is the metadata `MutationMeta` of the test cases; the first entry of a test case counts.
pub record CustomMutationalStage (L : Libafl) (T : Testcases L) : Type 0 where
  pub history : History L T
  pub max_depth : ℕ
  pub depths : List (ℕ × ℕ)

-- `CustomMutationalStage::new`, on a state whose test cases have these depths.
abbrev pub new :
    {L : Libafl} {T : Testcases L} → History L T → List (ℕ × ℕ) → CustomMutationalStage L T
new history depths = record { history = history; max_depth = 0; depths = depths }

abbrev pub Staged : (L : Libafl) → Testcases L → Type 0 → Type 0
Staged L T = Action (CustomMutationalStage L T) LibaflError

unfoldable pub depth_of : ℕ → List (ℕ × ℕ) → Option ℕ
depth_of idx [] = none
depth_of idx ((i, depth) ∷ more) = if i == idx then some depth else depth_of idx more

module _ {L : Libafl} {T : Testcases L} where
  abbrev pub in_fuzz : {A : Type 0} → Fuzz L T A → Staged L T A
  in_fuzz m s = let (r, h) = m s.history in (r, record s { history = h })

  -- The depth of a test case, which is 1 from now on if it has none.
  unfoldable pub existing : ℕ → Staged L T ℕ
  unfolding depth_of
  existing idx s = elim (depth_of idx s.depths) [
    | some depth ↦ (ok depth, s)
    | none ↦ (ok 1, record s { depths = (idx, 1) ∷ s.depths })
  ]

  -- `exist_depth + 1` on 64 bits: with overflow checks in the build it panics, else it wraps.
  unfoldable pub next_depth : Bool → ℕ → Staged L T ℕ
  next_depth checks depth s =
      if ltb (depth + 1) u64_mod
      then (ok (depth + 1), s)
      else if checks
      then (panic, s)
      else (ok ((depth + 1) % u64_mod), s)

  -- `add_metadata`
  unfoldable pub add_depth : ℕ → ℕ → Staged L T (Unit {0})
  add_depth idx depth s = (ok tt, record s { depths = (idx, depth) ∷ s.depths })

module _ {L : Libafl} {T : Testcases L} (env : Env L T) (checks : Bool) where
  -- A depth above all before is kept and told.
  unfoldable pub raise : ℕ → Staged L T (Unit {0})
  raise depth s =
      if ltb s.max_depth depth
      then in_fuzz (tell env (fire (Event.update_user_stats (codes "max_depth") (L.number depth))))
          (record s { max_depth = depth })
      else (ok tt, s)

  -- What follows the execution if the input was added to the corpus.
  unfoldable pub deepen : ℕ → Option ℕ → Staged L T (Unit {0})
  unfolding next_depth add_depth raise
  deepen exist_depth none s = (ok tt, s)
  deepen exist_depth (some idx) s =
      (do
        in_fuzz (tell env (corpus_get idx))
        depth ← next_depth checks exist_depth
        add_depth idx depth
        raise depth)
        s

  -- The loop's body behind the depth of the test case.
  unfoldable pub mutate_once : ℕ → ℕ → ℕ → Staged L T (Unit {0})
  unfolding deepen
  mutate_once corpus_idx i exist_depth = do
    loaded ← in_fuzz (ask (load_input corpus_idx) (λ h. env.loaded h corpus_idx))
    input ← in_fuzz (ask (mutate loaded i) (λ h. env.mutated h loaded i))
    exit_kind ← in_fuzz (execute_input env input)
    result ← in_fuzz (process_execution env input exit_kind true)
    deepen exist_depth result.1
    in_fuzz (tell env (nn_fuzz.Fuzzer.post_exec i result.1))

  unfoldable pub iteration : ℕ → ℕ → Staged L T (Unit {0})
  unfolding existing mutate_once
  iteration corpus_idx i = do
    in_fuzz (tell env (corpus_get corpus_idx))
    exist_depth ← existing corpus_idx
    mutate_once corpus_idx i exist_depth

  -- `for i in 0..num`, with the rounds that are left and the number of this one.
  pub iterate : ℕ → ℕ → ℕ → Staged L T (Unit {0})
  unfolding iteration
  iterate zero i corpus_idx s = (ok tt, s)
  iterate (suc n) i corpus_idx s = (iteration corpus_idx i >> iterate n (i + 1) corpus_idx) s

  -- `iterations`
  unfoldable pub iterations : Fuzz L T ℕ
  iterations =
      Program.◌>>=◌
        (ask (rand_below default_mutational_max_iterations)
          (λ h. inr (env.below h default_mutational_max_iterations)))
        (λ below. pure (1 + below))

  unfoldable pub perform_mutational : ℕ → Staged L T (Unit {0})
  unfolding iterations iterate
  perform_mutational corpus_idx = do num ← in_fuzz iterations; iterate num 0 corpus_idx

  -- `Stage::perform`
  abbrev pub perform : ℕ → Staged L T (Unit {0})
  perform = perform_mutational
