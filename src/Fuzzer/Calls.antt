-- ===== src/Fuzzer/Calls.antt =====
-- The kinds of the calls that `HeavyFuzzer` makes.
use nn_fuzz.External.{Libafl}
use nn_fuzz.Fuzzer.{
  Testcases, Call, pre_exec_all, add_execution, run_target, post_exec_all, objective_is_interesting,
  feedback_is_interesting, objective_discard_metadata, feedback_discard_metadata,
  objective_append_metadata, feedback_append_metadata, solutions_add, corpus_add, on_add,
  serialize_observers, fire,
}

-- A call without its arguments.
pub data Kind : Type 0 where
  pre_exec bump run post_exec : Kind
  objective_asks feedback_asks objective_discards feedback_discards : Kind
  objective_appends feedback_appends : Kind
  adds_solution adds_corpus schedules serializes fires others : Kind

abbrev pub kind : {L : Libafl} {T : Testcases L} → Call L T → Kind
kind (pre_exec_all _) = pre_exec
kind add_execution = bump
kind (run_target _) = run
kind (post_exec_all _ _) = Kind.post_exec
kind (objective_is_interesting _ _) = objective_asks
kind (feedback_is_interesting _ _) = feedback_asks
kind (objective_discard_metadata _) = objective_discards
kind (feedback_discard_metadata _) = feedback_discards
kind (objective_append_metadata _) = objective_appends
kind (feedback_append_metadata _) = feedback_appends
kind (solutions_add _) = adds_solution
kind (corpus_add _) = adds_corpus
kind (on_add _) = schedules
kind serialize_observers = serializes
kind (fire _) = fires
kind _ = others
