-- ===== src/Tests/Filing.antt =====
-- Runs of the fuzzer and its stage: an environment that finds every input interesting for the corpus.
use nn_fuzz.Base.{
  arith, ℕ, ◌+◌, ◌≤◌, ◌<◌, length, some, ◌⊎◌, ◌≡◌, refl, inr, [], ◌∷◌, Bool, true, false,
}
use nn_fuzz.Base.Text.{Bytes}
use nn_fuzz.Fuzzer.{
  corpus, Testcases, Call, History, objective_is_interesting, Env, process_execution,
  evaluate_input, add_input, rate, file_corpus,
}
use nn_fuzz.Base.Program.{ask, pure, read, ◌>>=◌}
use nn_fuzz.Fuzzer.Calls.{kind}
use nn_fuzz.Base.Program.{Ends, kinds}
use nn_fuzz.Fuzzer.Laws.{protocol}
use nn_fuzz.Fuzzer.Filing.{IsEvaluated}
use nn_fuzz.Fuzzer.Filing.Adding.{Adding}
use nn_fuzz.Fuzzer.Filing.Whole.{evaluate_input_files, add_input_files}
use nn_fuzz.Fuzzer.Evaluation.{Evaluated, Added}
use nn_fuzz.Base.Outcome.{ok}
use nn_fuzz.Base.Program as Program
use nn_fuzz.Fuzzer.ExecutesInput.{execute_input}
use nn_fuzz.Stage.{
  CustomMutationalStage, depth_of, next_depth, new, perform, iterations, perform_mutational,
}
use nn_fuzz.Stage.Default
use nn_fuzz.Stage.Unaware.{fuzzing, unaware}
use nn_fuzz.Stage.Refinement.{perform_mutational_refines}
use nn_fuzz.Stage.Counting.{executions}
use nn_fuzz.Stage.Executions.{perform_mutational_executions}
use nn_fuzz.Stage.Depths.{HasChildren, parent_depth, with_parent}
use nn_fuzz.Stage.Depths.Runs.{perform_mutational_depths}
use nn_fuzz.Stage.Family.{Family}
use nn_fuzz.Stage.Family.Refinement.{perform_mutational-Family}
use nn_fuzz.Stage.Family.Laws.{IsSound, IsRecent}
use nn_fuzz.Stage.Campaign.{
  Campaign, starts, performs, restarts, campaign_lem, campaign_never_overflows,
}
use nn_fuzz.Std.Decimal.{u64_mod}
use nn_fuzz.Tests.Sample.{bytes}

abbrev testcases : Testcases bytes
testcases = record { Testcase = Bytes; with_executions = λ input n. n ∷ input }

abbrev wanted : Call bytes testcases → Bool
wanted (objective_is_interesting _ _) = false
wanted _ = true

abbrev env : Env bytes testcases
env = record {
  done = λ h c. inr tt;
  exit_kind = λ h input. inr tt;
  interesting = λ h c. inr (wanted c);
  appended = λ h t. inr t;
  new_id = λ h t. inr 4;
  observers_buf = λ h. inr [];
  next_id = λ h. inr 0;
  loaded = λ h n. inr [];
  mutated = λ h input n. inr input;
  below = λ h n. 0;
  executions = λ h. 1;
  corpus_count = λ h. 5;
  solutions_count = λ h. 0;
  current_time = λ h. 9;
  configuration = tt;
}

-- The run succeeds, and its calls are those of the corpus.
filed_in_corpus : kinds kind (process_execution env (65 ∷ []) tt true []).1 ≡ protocol corpus true
unfolding kinds process_execution rate file_corpus ask pure read ◌>>=◌
filed_in_corpus = refl

evaluate_input_files_example :
    Ends
      (λ c. c)
      (evaluate_input env (65 ∷ []) true)
      (λ r ks. IsEvaluated env (65 ∷ []) true r ks × Evaluated true r (kinds kind ks))
evaluate_input_files_example = evaluate_input_files env (65 ∷ []) true

add_input_files_example :
    Ends
      (λ c. c)
      (add_input env (65 ∷ []))
      (λ r ks. Adding env (65 ∷ []) r ks × Added true r (kinds kind ks))
add_input_files_example = add_input_files env (65 ∷ [])

-- The stage at a test case of depth 2.
abbrev stage : CustomMutationalStage bytes testcases
stage = record { history = []; max_depth = 3; depths = (0, 2) ∷ [] }

perform_mutational-Family_example :
    let t = (perform_mutational env true 0 stage).1 in
    Family true 3 ((0, 2) ∷ []) t.max_depth t.depths
perform_mutational-Family_example = perform_mutational-Family env true 0 stage

-- The stage runs on a test case with no depth yet, enters its child with the identifier 4, is made anew
-- and runs on that one.
abbrev first : CustomMutationalStage bytes testcases
first = (perform env true 0 (new [] [])).1

abbrev second : CustomMutationalStage bytes testcases
second = (perform env true 4 (new [] first.depths)).1

campaign : Campaign env true first.depths second
campaign =
    performs 4 (perform env true 4 (new [] first.depths)).0
      (restarts [] (performs 0 (perform env true 0 (new [] [])).0 (starts []) refl) refl refl) refl

first_depths : first.depths ≡ (4, 2) ∷ (0, 1) ∷ []
unfolding perform_mutational execute_input process_execution rate file_corpus ask pure read
    Program.◌>>=◌
first_depths = refl

campaign_lem_example :
    IsSound true second.max_depth second.depths
    × IsRecent first.depths second.max_depth second.depths
campaign_lem_example = campaign_lem env true first.depths second campaign

once : Campaign env true [] first
once = performs 0 (perform env true 0 (new [] [])).0 (starts []) refl

first_few : length first.depths + 1 < u64_mod
first_few = rw first_depths (omega arith)

first_held : depth_of 4 first.depths ≡ some 2
unfolding depth_of
first_held = rw first_depths refl

campaign_never_overflows_example : next_depth true 2 first ≡ (ok 3, first)
campaign_never_overflows_example =
    campaign_never_overflows env true [] first once first_few 4 2 first_held

-- The corpus gives the identifier 4, which is not the one of the stage's test case.
new_ids : (h : History bytes testcases) (t : Bytes) (id : ℕ) → env.new_id h t ≡ inr id → ¬ (id ≡ 0)
new_ids h t id e same = ground (arith, e, same)

perform_mutational_depths_example :
    let ds = (perform_mutational env true 0 stage).1.depths in
    (ds ≡ stage.depths)
    ⊎ HasChildren 0 (parent_depth 0 stage.depths) (with_parent 0 stage.depths) ds
perform_mutational_depths_example = perform_mutational_depths env true 0 new_ids stage

-- An environment that does not see the stage's books; the stage runs once and succeeds.
perform_mutational_refines_example :
    (h' : History bytes testcases) × (Default.perform_mutational
        (unaware env)
        (iterations (unaware env) true)
        0
        []
      ≡ (ok tt, h'))
    × (fuzzing (perform_mutational (unaware env) true 0 stage).1.history ≡ fuzzing h')
unfolding perform_mutational execute_input process_execution rate file_corpus ask pure read
    Program.◌>>=◌
perform_mutational_refines_example =
    perform_mutational_refines env true 0 stage (perform_mutational (unaware env) true 0 stage).1 []
      refl refl

perform_mutational_executions_example :
    let (r, s') = perform_mutational env true 0 stage in
    (1 ≤ 1 + env.below [] 128)
    × (1 + env.below [] 128 ≤ 128)
    × (executions s'.history ≤ executions stage.history + 1)
    × ((executions s'.history ≡ executions stage.history + 1) ⊎ (¬ (r ≡ ok tt)))
perform_mutational_executions_example =
    perform_mutational_executions env true (λ h. omega arith) 0 stage
