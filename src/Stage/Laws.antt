-- ===== src/Stage/Laws.antt =====
-- The books of `CustomMutationalStage`, their calls and their bound.
use nn_fuzz.Base.{ℕ, ◌≤◌, ◌≡◌, Bool, All, arith, Option-cases}
use nn_fuzz.External.{Libafl}
use nn_fuzz.Fuzzer.{Testcases, Env}
use nn_fuzz.Stage.{CustomMutationalStage, depth_of, existing, next_depth, perform_mutational}
use nn_fuzz.Stage.Family.Refinement.{perform_mutational-Family}
use nn_fuzz.Stage.Family.Laws.{ceiling, IsBelow, Family-bounded}

-- Keeping the depths makes no call.
module _ {L : Libafl} {T : Testcases L} where
  pub existing-history :
      (corpus_idx : ℕ) (s : CustomMutationalStage L T)
      → (existing corpus_idx s).1.history ≡ s.history
  unfolding existing
  existing-history corpus_idx s = ground (arith, Option-cases (depth_of corpus_idx s.depths))

  pub next_depth-history :
      (checks : Bool) (depth : ℕ) (s : CustomMutationalStage L T)
      → (next_depth checks depth s).1.history ≡ s.history
  unfolding next_depth
  next_depth-history checks depth s = ground arith

-- Since the stage kept `start`, its greatest depth has not gone down, and no test case is above it.
record IsBounded {L : Libafl} {T : Testcases L} (start : ℕ) (s : CustomMutationalStage L T)
    : Type 0 where
  grown : start ≤ s.max_depth
  all_below : All (IsBelow (ceiling s.max_depth)) s.depths

-- In a run the greatest depth goes up only, and no test case is above it if none was, in a build with
-- overflow checks or without.
perform_mutational-IsBounded :
    {L : Libafl} {T : Testcases L} (env : Env L T) (checks : Bool) (start corpus_idx : ℕ)
    (s : CustomMutationalStage L T)
    → IsBounded start s
    → IsBounded start (perform_mutational env checks corpus_idx s).1
perform_mutational-IsBounded env checks start corpus_idx s h =
    let (grown, all_below) =
      Family-bounded (perform_mutational-Family env checks corpus_idx s) start h.grown
        h.all_below in
    record { grown = grown; all_below = all_below }
