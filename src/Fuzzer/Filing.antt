-- ===== src/Fuzzer/Filing.antt =====
-- nn_fuzz/src/components/fuzzer.rs: what becomes of an input that is evaluated, with the data of every
-- call. The predicates; their proofs are in Filing/Laws.
pub mod Laws
pub mod Adding
pub mod Whole
use nn_fuzz.Base.{
  ℕ, ◌≡◌, refl, ap, ◌⊎◌, inl, inr, List, [], ◌∷◌, ◌++◌, ◌∙◌, append-nil, All, All-append, Option,
  some, Bool, true, false, if◌then◌else◌,
}
use nn_fuzz.Base.Text.{Bytes}
use nn_fuzz.Base.Outcome.{Outcome, ok, err, panic}
use nn_fuzz.Base.Program.{
  Ends, Ends->>=, Ends-ask, Ends-answer, Ends-impl, Ends-pure, Ends-read, Ends-when, Post, ◌>>=◌,
}
use nn_fuzz.External.{Libafl, LibaflError}
use nn_fuzz.Messages.{Event, new_testcase, objective}
use nn_fuzz.Fuzzer.{
  ExecuteInputResult, corpus, solution, Testcases, Call, Env, History, pre_exec_all, add_execution,
  run_target, post_exec_all, objective_is_interesting, feedback_is_interesting,
  objective_discard_metadata, feedback_discard_metadata, objective_append_metadata,
  feedback_append_metadata, solutions_add, corpus_add, on_add, serialize_observers, fire, tell,
  fire_if, execute_input, rate, file, file_none, file_solution, file_corpus, process_execution,
  evaluate_input,
}

module _ {L : Libafl} {T : Testcases L} (env : Env L T) (input : L.Input) where
  abbrev pub IsAbout : Call L T → Type 0
  IsAbout (pre_exec_all i) = i ≡ input
  IsAbout (run_target i) = i ≡ input
  IsAbout (post_exec_all i _) = i ≡ input
  IsAbout (objective_is_interesting i _) = i ≡ input
  IsAbout (feedback_is_interesting i _) = i ≡ input
  IsAbout (objective_discard_metadata i) = i ≡ input
  IsAbout (feedback_discard_metadata i) = i ≡ input
  IsAbout _ = Unit

  -- The environment said so when it was asked.
  abbrev pub Said : Call L T → Bool → Type 0
  Said c b = (h : History L T) × (env.interesting h c ≡ inr b)

  -- The input as a test case, with a number of executions, and with the metadata that was added.
  abbrev pub Appended : ℕ → T.Testcase → Type 0
  Appended executions t =
      (h : History L T) × (env.appended h (T.with_executions input executions) ≡ inr t)

  abbrev pub fired : Bool → Event L → List (Call L T)
  fired send event = if send then fire event ∷ [] else []

  abbrev pub executed : L.ExitKind → List (Call L T)
  executed exit_kind =
      pre_exec_all input ∷ add_execution ∷ run_target input ∷ post_exec_all input exit_kind ∷ []

  module _ (exit_kind : L.ExitKind) where
    abbrev pub objective_asks : Call L T
    objective_asks = objective_is_interesting input exit_kind

    abbrev pub feedback_asks : Call L T
    feedback_asks = feedback_is_interesting input exit_kind

    pub record IsForgotten (id : Option ℕ) (ks : List (Call L T)) : Type 0 where
      pub no_objective : Said objective_asks false
      pub no_feedback : Said feedback_asks false
      pub no_id : id ≡ Option.none
      pub whole :
          ks
          ≡ objective_asks
            ∷ feedback_asks
            ∷ feedback_discard_metadata input
            ∷ objective_discard_metadata input
            ∷ []

    pub record IsSolution (send : Bool) (id : Option ℕ) (ks : List (Call L T)) : Type 0 where
      pub an_objective : Said objective_asks true
      pub executions : ℕ
      pub testcase : T.Testcase
      pub appended : Appended executions testcase
      pub at : History L T
      pub no_id : id ≡ Option.none
      pub whole :
          ks
          ≡ objective_asks
            ∷ feedback_discard_metadata input
            ∷ objective_append_metadata (T.with_executions input executions)
            ∷ solutions_add testcase
            ∷ fired send (objective (env.solutions_count at))

    pub record IsKept (send : Bool) (id : Option ℕ) (ks : List (Call L T)) : Type 0 where
      pub no_objective : Said objective_asks false
      pub a_feedback : Said feedback_asks true
      pub executions : ℕ
      pub testcase : T.Testcase
      pub appended : Appended executions testcase
      pub idx : ℕ
      pub is_id : id ≡ some idx
      pub given : (h : History L T) × (env.new_id h testcase ≡ inr idx)
      pub buf : Bytes
      pub serialized : (h : History L T) × (env.observers_buf h ≡ inr buf)
      pub at : History L T
      pub whole :
          ks
          ≡ objective_asks
            ∷ feedback_asks
            ∷ objective_discard_metadata input
            ∷ feedback_append_metadata (T.with_executions input executions)
            ∷ corpus_add testcase
            ∷ on_add idx
            ∷ serialize_observers
            ∷ fired send (
                new_testcase input
                  (some buf)
                  exit_kind
                  (env.corpus_count at)
                  env.configuration
                  (env.current_time at)
                  (env.executions at))

    abbrev pub IsFiled : Bool → Post LibaflError (Call L T) (ExecuteInputResult × Option ℕ)
    IsFiled send (ok (ExecuteInputResult.none, id)) ks = IsForgotten id ks
    IsFiled send (ok (solution, id)) ks = IsSolution send id ks
    IsFiled send (ok (corpus, id)) ks = IsKept send id ks
    IsFiled send (err _) ks = All IsAbout ks
    IsFiled send panic ks = ⊥

  abbrev pub IsEvaluated : Bool → Post LibaflError (Call L T) (ExecuteInputResult × Option ℕ)
  IsEvaluated send (ok r) ks =
      (exit_kind : L.ExitKind) × (more : List (Call L T)) × ((h : History L T) × (env.exit_kind h
            input
          ≡ inr exit_kind))
      × (ks ≡ executed exit_kind ++ more)
      × IsFiled exit_kind send (ok r) more
  IsEvaluated send (err _) ks = All IsAbout ks
  IsEvaluated send panic ks = ⊥
