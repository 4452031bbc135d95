-- ===== src/Fuzzer.antt =====
-- nn_fuzz/src/components/fuzzer.rs: `HeavyFuzzer`, which runs an input and files it by what its
-- feedbacks say. The state, the executor, the manager, the scheduler and the feedbacks are LibAFL's:
-- the model records every call of them and lets an arbitrary environment answer.
pub mod Calls
pub mod Evaluation
pub mod ExecutesInput
pub mod Filing
pub mod Laws
use nn_fuzz.Base.{
  ℕ, ◌==◌, ◌⊎◌, inl, inr, List, [], ◌∷◌, ◌++◌, Option, some, Bool, true, false, if◌then◌else◌,
}
use nn_fuzz.Base.Text.{Bytes}
use nn_fuzz.Base.Program.{Program, pure, ask, read, ◌>>=◌, ◌>>◌}
use nn_fuzz.External.{Libafl, LibaflError}
use nn_fuzz.Messages.{Event, new_testcase, objective}

pub data ExecuteInputResult : Type 0 where
  none corpus solution : ExecuteInputResult

-- `Testcase`, which an input becomes and which feedbacks add metadata to.
pub record Testcases (L : Libafl) : Type 1 where
  pub Testcase : Type 0
  pub with_executions : L.Input → ℕ → Testcase

-- The calls of LibAFL's parts, in the source's names; `add_execution` is `*executions_mut() += 1`.
pub data Call (L : Libafl) (T : Testcases L) : Type 0 where
  pre_exec_all : L.Input → Call L T
  add_execution : Call L T
  run_target : L.Input → Call L T
  post_exec_all : L.Input → L.ExitKind → Call L T
  objective_is_interesting : L.Input → L.ExitKind → Call L T
  feedback_is_interesting : L.Input → L.ExitKind → Call L T
  objective_discard_metadata : L.Input → Call L T
  feedback_discard_metadata : L.Input → Call L T
  objective_append_metadata : T.Testcase → Call L T
  feedback_append_metadata : T.Testcase → Call L T
  solutions_add : T.Testcase → Call L T
  corpus_add : T.Testcase → Call L T
  on_add : ℕ → Call L T
  serialize_observers : Call L T
  fire : Event L → Call L T
  scheduler_next : Call L T
  perform_all : ℕ → Call L T
  process_events : Call L T
  corpus_get : ℕ → Call L T
  load_input : ℕ → Call L T
  mutate : L.Input → ℕ → Call L T
  post_exec : ℕ → Option ℕ → Call L T
  rand_below : ℕ → Call L T

abbrev pub History : (L : Libafl) → Testcases L → Type 0
History L T = List (Call L T)

-- How the environment answers, which may depend on all that was called before.
pub record Env (L : Libafl) (T : Testcases L) : Type 0 where
  pub done : History L T → Call L T → LibaflError ⊎ Unit {0}
  pub exit_kind : History L T → L.Input → LibaflError ⊎ L.ExitKind
  pub interesting : History L T → Call L T → LibaflError ⊎ Bool
  pub appended : History L T → T.Testcase → LibaflError ⊎ T.Testcase
  pub new_id : History L T → T.Testcase → LibaflError ⊎ ℕ
  pub observers_buf : History L T → LibaflError ⊎ Bytes
  pub next_id : History L T → LibaflError ⊎ ℕ
  pub loaded : History L T → ℕ → LibaflError ⊎ L.Input
  pub mutated : History L T → L.Input → ℕ → LibaflError ⊎ L.Input
  pub below : History L T → ℕ → ℕ
  pub executions : History L T → ℕ
  pub corpus_count : History L T → ℕ
  pub solutions_count : History L T → ℕ
  pub current_time : History L T → ℕ
  pub configuration : L.EventConfig

abbrev pub Fuzz : (L : Libafl) → Testcases L → Type 0 → Type 0
Fuzz L T = Program (Call L T) LibaflError

module _ {L : Libafl} {T : Testcases L} (env : Env L T) where
  -- A call with no result but success.
  abbrev pub tell : Call L T → Fuzz L T (Unit {0})
  tell c = ask c (λ h. env.done h c)

  -- `HeavyFuzzer::execute_input`, which the fuzzer itself calls.
  unfoldable pub execute_input : L.Input → Fuzz L T L.ExitKind
  execute_input input = do
    tell (pre_exec_all input)
    tell add_execution
    exit_kind ← ask (run_target input) (λ h. env.exit_kind h input)
    tell (post_exec_all input exit_kind)
    pure exit_kind

  -- The first half of `process_execution`: what the input is.
  unfoldable pub rate : L.Input → L.ExitKind → Fuzz L T ExecuteInputResult
  rate input exit_kind = do
    let objective_asks = objective_is_interesting input exit_kind
    let feedback_asks = feedback_is_interesting input exit_kind
    is_solution ← ask objective_asks (λ h. env.interesting h objective_asks)
    if is_solution then pure solution else (do
      is_corpus ← ask feedback_asks (λ h. env.interesting h feedback_asks)
      pure (if is_corpus then corpus else ExecuteInputResult.none))

  abbrev pub fire_if : Bool → (History L T → Event L) → Fuzz L T (Unit {0})
  fire_if send_events event = if send_events then (do e ← read event; tell (fire e)) else pure tt

  unfoldable pub file_none : L.Input → Fuzz L T (ExecuteInputResult × Option ℕ)
  file_none input = do
    tell (feedback_discard_metadata input)
    tell (objective_discard_metadata input)
    pure (ExecuteInputResult.none, Option.none)

  unfoldable pub file_solution : L.Input → Bool → Fuzz L T (ExecuteInputResult × Option ℕ)
  file_solution input send_events = do
    tell (feedback_discard_metadata input)
    executions ← read env.executions
    let testcase = T.with_executions input executions
    testcase' ← ask (objective_append_metadata testcase) (λ h. env.appended h testcase)
    tell (solutions_add testcase')
    fire_if send_events (λ h. objective (env.solutions_count h))
    pure (solution, Option.none)

  unfoldable pub file_corpus :
      L.Input → L.ExitKind → Bool → Fuzz L T (ExecuteInputResult × Option ℕ)
  file_corpus input exit_kind send_events = do
    tell (objective_discard_metadata input)
    executions ← read env.executions
    let testcase = T.with_executions input executions
    testcase' ← ask (feedback_append_metadata testcase) (λ h. env.appended h testcase)
    idx ← ask (corpus_add testcase') (λ h. env.new_id h testcase')
    tell (on_add idx)
    buf ← ask serialize_observers env.observers_buf
    fire_if send_events (λ h.
        new_testcase input (some buf) exit_kind (env.corpus_count h) env.configuration
          (env.current_time h) (env.executions h))
    pure (corpus, some idx)

  -- The second half: the `match` on the result.
  abbrev pub file :
      L.Input → L.ExitKind → Bool → ExecuteInputResult → Fuzz L T (ExecuteInputResult × Option ℕ)
  file input exit_kind send_events ExecuteInputResult.none = file_none input
  file input exit_kind send_events solution = file_solution input send_events
  file input exit_kind send_events corpus = file_corpus input exit_kind send_events

  unfoldable pub process_execution :
      L.Input → L.ExitKind → Bool → Fuzz L T (ExecuteInputResult × Option ℕ)
  process_execution input exit_kind send_events = do
    res ← rate input exit_kind
    file input exit_kind send_events res

  -- `evaluate_input_with_observers`, which `evaluate_input_events` calls.
  unfoldable pub evaluate_input : L.Input → Bool → Fuzz L T (ExecuteInputResult × Option ℕ)
  evaluate_input input send_events = do
    exit_kind ← execute_input input
    process_execution input exit_kind send_events

  -- The observers of an event that `add_input` fires.
  abbrev pub observers_if_shared : Fuzz L T (Option Bytes)
  observers_if_shared =
      if L.is_always_unique env.configuration
      then pure Option.none
      else (do buf ← ask serialize_observers env.observers_buf; pure (some buf))

  unfoldable pub add_input : L.Input → Fuzz L T ℕ
  add_input input = do
    exit_kind ← execute_input input
    tell (objective_discard_metadata input)
    executions ← read env.executions
    let testcase = T.with_executions input executions
    testcase' ← ask (feedback_append_metadata testcase) (λ h. env.appended h testcase)
    idx ← ask (corpus_add testcase') (λ h. env.new_id h testcase')
    tell (on_add idx)
    observers_buf ← observers_if_shared
    event ← read (λ h.
        new_testcase input observers_buf exit_kind (env.corpus_count h) env.configuration
          (env.current_time h) (env.executions h))
    tell (fire event)
    pure idx

  unfoldable pub fuzz_one : Fuzz L T ℕ
  fuzz_one = do
    idx ← ask scheduler_next env.next_id
    tell (perform_all idx)
    tell process_events
    pure idx
