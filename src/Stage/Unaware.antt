-- ===== src/Stage/Unaware.antt =====
-- The programs of the fuzzer that a stage calls, in an environment whose answers do not depend on
-- the calls by which `CustomMutationalStage` keeps its depths.
use nn_fuzz.Base.{ap, ◌⊎◌, some, Bool, true, false, if◌then◌else◌}
use nn_fuzz.Base.Blind.{
  visible, IsBlind, IsBlind-pure, IsBlind-read, IsBlind-ask, IsBlind-if, IsBlind->>=,
}
use nn_fuzz.Base.Program.{ask, read}
use nn_fuzz.External.{Libafl, LibaflError}
use nn_fuzz.Messages.{Event, new_testcase, objective}
use nn_fuzz.Fuzzer.{
  ExecuteInputResult, corpus, solution, Testcases, Call, objective_is_interesting,
  feedback_is_interesting, corpus_get, fire, History, Env, Fuzz, tell, rate, file, file_none,
  file_solution, file_corpus, fire_if, process_execution,
}
use nn_fuzz.Fuzzer.ExecutesInput.{execute_input}

-- The calls that the default method does not make, or makes for another end: looking up a test case,
-- and telling the user's statistics.
abbrev pub is_fuzzing : {L : Libafl} {T : Testcases L} → Call L T → Bool
is_fuzzing (corpus_get _) = false
is_fuzzing (fire (Event.update_user_stats _ _)) = false
is_fuzzing _ = true

module _ {L : Libafl} {T : Testcases L} where
  abbrev pub fuzzing : History L T → History L T
  fuzzing = visible is_fuzzing

  -- An environment whose answers do not depend on those calls.
  abbrev pub unaware : Env L T → Env L T
  unaware env = record {
    done = λ h. env.done (fuzzing h);
    exit_kind = λ h. env.exit_kind (fuzzing h);
    interesting = λ h. env.interesting (fuzzing h);
    appended = λ h. env.appended (fuzzing h);
    new_id = λ h. env.new_id (fuzzing h);
    observers_buf = λ h. env.observers_buf (fuzzing h);
    next_id = λ h. env.next_id (fuzzing h);
    loaded = λ h. env.loaded (fuzzing h);
    mutated = λ h. env.mutated (fuzzing h);
    below = λ h. env.below (fuzzing h);
    executions = λ h. env.executions (fuzzing h);
    corpus_count = λ h. env.corpus_count (fuzzing h);
    solutions_count = λ h. env.solutions_count (fuzzing h);
    current_time = λ h. env.current_time (fuzzing h);
    configuration = env.configuration;
  }

  abbrev pub Blind : {A : Type 0} → Fuzz L T A → Type 0
  Blind = IsBlind is_fuzzing

module _ {L : Libafl} {T : Testcases L} (env : Env L T) where
  -- A question whose answer is a function of what the environment sees.
  pub asking :
      {A : Type 0} (c : Call L T) (reply : History L T → LibaflError ⊎ A)
      → Blind (ask c (λ h. reply (fuzzing h)))
  asking c reply = IsBlind-ask c (λ h. reply (fuzzing h)) (λ g h e. ap reply e)

  reading : {A : Type 0} (f : History L T → A) → Blind (read (λ h. f (fuzzing h)))
  reading f = IsBlind-read (λ h. f (fuzzing h)) (λ g h e. ap f e)

  pub tell-Blind : (c : Call L T) → Blind (tell (unaware env) c)
  tell-Blind c = asking c (λ v. env.done v c)

  pub execute_input-Blind : (input : L.Input) → Blind (execute_input (unaware env) input)
  unfolding execute_input
  execute_input-Blind input = IsBlind->>= (tell-Blind _) (λ _. IsBlind->>= (tell-Blind _) (λ _.
      IsBlind->>= (asking _ (λ v. env.exit_kind v input))
        (λ exit_kind. IsBlind->>= (tell-Blind _) (λ _. IsBlind-pure exit_kind))))

  fire_if-Blind :
      (send : Bool) (event : History L T → Event L)
      → Blind (fire_if (unaware env) send (λ h. event (fuzzing h)))
  fire_if-Blind send event =
      IsBlind-if send (IsBlind->>= (reading event) (λ e. tell-Blind (fire e))) (IsBlind-pure tt)

  file-Blind :
      (input : L.Input) (exit_kind : L.ExitKind) (send : Bool) (res : ExecuteInputResult)
      → Blind (file (unaware env) input exit_kind send res)
  unfolding file_none file_solution file_corpus
  file-Blind input exit_kind send ExecuteInputResult.none =
      IsBlind->>= (tell-Blind _) (λ _. IsBlind->>= (tell-Blind _) (λ _. IsBlind-pure _))
  file-Blind input exit_kind send solution = IsBlind->>= (tell-Blind _) (λ _.
      IsBlind->>= (reading env.executions) (λ n.
        IsBlind->>= (asking _ (λ v. env.appended v (T.with_executions input n))) (λ t.
          IsBlind->>= (tell-Blind _) (λ _.
            IsBlind->>= (fire_if-Blind send (λ v. objective (env.solutions_count v)))
              (λ _. IsBlind-pure _)))))
  file-Blind input exit_kind send corpus = IsBlind->>= (tell-Blind _) (λ _.
      IsBlind->>= (reading env.executions) (λ n.
        IsBlind->>= (asking _ (λ v. env.appended v (T.with_executions input n))) (λ t.
          IsBlind->>= (asking _ (λ v. env.new_id v t)) (λ idx. IsBlind->>= (tell-Blind _) (λ _.
            IsBlind->>= (asking _ env.observers_buf) (λ buf.
              IsBlind->>=
                (fire_if-Blind send (λ v.
                  new_testcase input (some buf) exit_kind (env.corpus_count v) env.configuration
                    (env.current_time v) (env.executions v)))
                (λ _. IsBlind-pure _)))))))

  pub process_execution-Blind :
      (input : L.Input) (exit_kind : L.ExitKind) (send : Bool)
      → Blind (process_execution (unaware env) input exit_kind send)
  unfolding process_execution rate
  process_execution-Blind input exit_kind send =
      IsBlind->>=
        (IsBlind->>= (asking _ (λ v. env.interesting v (objective_is_interesting input exit_kind)))
          (λ is_solution. IsBlind-if is_solution (IsBlind-pure solution) (
            IsBlind->>=
              (asking _ (λ v. env.interesting v (feedback_is_interesting input exit_kind)))
              (λ is_corpus. IsBlind-pure (if is_corpus then corpus else ExecuteInputResult.none)))))
        (λ res. file-Blind input exit_kind send res)
