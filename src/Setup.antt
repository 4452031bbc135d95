-- ===== src/Setup.antt =====
-- nn_fuzz/src/fuzz/mod.rs and nn_fuzz/src/fuzz/unix.rs: `fuzz`, and the closure `run_client`, which
-- sets up LibAFL's parts for one client and runs its fuzzing loop; and nn_fuzz/src/main.rs.
pub mod Laws
pub mod Children
pub mod Protocol
pub mod Reaching
pub mod Seeding
use nn_fuzz.Base.{
  ℕ, ◌==◌, ltb, ◌⊎◌, inl, inr, List, [], ◌∷◌, ◌++◌, Option, none, some, Bool, true, false, not,
  if◌then◌else◌, ◌&&◌,
}
use nn_fuzz.Base.Text.{Bytes, codes}
use nn_fuzz.Base.Outcome.{Outcome, ok, err, panic}
use nn_fuzz.Base.Program.{Program, pure, ◌>>=◌, ◌>>◌, ask, attempt, demand, note, read, throw, die}
use nn_fuzz.Std.Decimal.{ParseIntError, to_string}
use nn_fuzz.Std.Net.{IoError}
use nn_fuzz.External.{LibaflError, shutting_down}
use nn_fuzz.Args.{Works, mutate_args}
use nn_fuzz.Options.{FuzzerOptions, check_options, client_seed}
use nn_fuzz.Server.Service.{map_size}
use nn_fuzz.Launcher as Launcher
use nn_fuzz.Launcher.{Launcher}

-- Feedbacks and objectives, which name the observers that they read.
pub data Feedback : Type 0 where
  max_map : (observer : Bytes) (track_indexes track_novelties : Bool) → Feedback
  time : (observer : Bytes) → Feedback
  crash timeout : Feedback
  feedback_or feedback_or_fast : (left right : Feedback) → Feedback

abbrev pub edges : Bytes
edges = codes "edges"

abbrev pub feedback : Feedback
feedback = feedback_or (max_map edges true false) (time (codes "time"))

abbrev pub objective : Feedback
objective = feedback_or_fast crash timeout

pub data Mutations : Type 0 where
  havoc_mutations tokens_mutations : Mutations
  merge : (left right : Mutations) → Mutations

-- The calls that a client makes before and in its fuzzing loop.
pub data Call : Type 0 where
  new_shmem_provider : Call
  new_shmem : (map_size : ℕ) → Call
  write_to_env : (env_name : Bytes) → Call
  open_queue : (dir : Bytes) (cache : ℕ) → Call
  open_output : (dir : Bytes) → Call
  new_state : (seed : ℕ) (feedback objective : Feedback) → Call
  add_from_files : (dicts : List Bytes) → Call
  fire_loaded : (tokens : ℕ) (dicts : List Bytes) → Call
  add_metadata : (tokens : ℕ) → Call
  read_to_string : (config : Bytes) → Call
  build_forkserver :
      (program : Bytes) (debug_child : Bool) (arg_input_file : Bytes) (args observers : List Bytes)
      → Call
  new_timeout_executor : (timeout : ℕ) → Call
  load_initial_inputs : (dirs : List Bytes) → Call
  generate_initial_inputs : (max_length count : ℕ) → Call
  fuzz_loop : (mutations : Mutations) (max_stack_pow : ℕ) → Call

-- How LibAFL and the operating system answer. Tokens are known by their number; `nanos` is
-- `current_nanos()`; `fuzzed` is how the fuzzing loop ends, whose stage may panic; `parse_text` and
-- `checks` are as for `mutate_args`.
pub record Env : Type 0 where
  pub done : List Call → Call → LibaflError ⊎ Unit {0}
  pub has_tokens : List Call → Bool
  pub tokens : List Call → LibaflError ⊎ ℕ
  pub config : List Call → IoError ⊎ Option Works
  pub corpus_count : List Call → ℕ
  pub fuzzed : List Call → Outcome LibaflError (Unit {0})
  pub nanos : ℕ
  pub parse_text : ParseIntError → Bytes
  pub checks : Bool

abbrev pub Client : Type 0 → Type 0
Client = Program Call LibaflError

-- A computed outcome as the end of a program's part.
abbrev pub settle : {A : Type 0} → Outcome LibaflError A → Client A
settle (ok a) = pure a
settle (err e) = throw e
settle panic = die

abbrev pub is_empty : List Bytes → Bool
is_empty [] = true
is_empty (_ ∷ _) = false

-- The fuzzing loop with its one stage.
abbrev pub fuzzing : Call
fuzzing = fuzz_loop (merge havoc_mutations tokens_mutations) 6

module _ (env : Env) (options : FuzzerOptions) where
  -- A call followed by `?`, and one followed by `unwrap`, `expect` or a panic of its own.
  abbrev pub tell : Call → Client (Unit {0})
  tell c = ask c (λ h. env.done h c)

  abbrev pub insist : Call → Client (Unit {0})
  insist c = demand c (λ h. env.done h c)

  unfoldable pub provide : Client (Unit {0})
  provide = do
    tell new_shmem_provider
    insist (new_shmem map_size)
    insist (write_to_env (codes "__AFL_SHM_ID"))

  -- `state.unwrap_or_else(…)`
  unfoldable pub open_state : {State : Type 0} → Option State → ℕ → Client (Unit {0})
  open_state (some _) core_id = pure tt
  open_state none core_id = do
    seed ← settle (client_seed options env.nanos core_id)
    insist (open_queue options.queue 64)
    insist (open_output options.output)
    insist (new_state seed feedback objective)

  unfoldable pub load_tokens : List Bytes → Client (Unit {0})
  load_tokens dicts = do
    has ← read env.has_tokens
    (if not has && not (is_empty dicts)
        then (do
          tokens ← ask (add_from_files dicts) env.tokens
          tell (fire_loaded tokens dicts)
          note (add_metadata tokens))
        else pure tt)

  -- The arguments of the target for this core.
  unfoldable pub harness_args : ℕ → Client (List Bytes)
  harness_args core_id = elim (options.core_args_config) [
    | none ↦ pure (options.args)
    | some config ↦ (do
      answer ← ask (read_to_string config) (λ h. inr (env.config h))
      let (r, args) = mutate_args env.parse_text env.checks core_id answer options.args
      settle r
      pure args)
  ]

  abbrev pub forkserver : ℕ → List Bytes → Call
  forkserver core_id args =
      build_forkserver options.executable options.debug_child
        (codes ".cur_input_" ++ to_string core_id) args (codes "time" ∷ edges ∷ [])

  unfoldable pub build_executor : ℕ → List Bytes → Client (Unit {0})
  build_executor core_id args = do
    insist (forkserver core_id args)
    insist (new_timeout_executor options.timeout)

  abbrev pub fill : Call
  fill = elim (options.input) [
    | some inputs ↦ load_initial_inputs inputs
    | none ↦ generate_initial_inputs options.input_max_length options.generate_count
  ]

  unfoldable pub fill_corpus : Client (Unit {0})
  fill_corpus = do count ← read env.corpus_count; if ltb count 1 then insist fill else pure tt

  unfoldable pub run_client : {State : Type 0} → Option State → ℕ → Client (Unit {0})
  run_client state core_id = do
    provide
    open_state state core_id
    load_tokens options.tokens
    args ← harness_args core_id
    build_executor core_id args
    fill_corpus
    attempt fuzzing env.fuzzed

  -- The launcher that `fuzz` builds.
  abbrev pub launcher : {M State : Type 0} → M → Launcher M State Call
  launcher monitor = record {
    monitor = monitor;
    run_client = some run_client;
    broker_port = options.broker_port;
    cores = options.cores;
    stdout_file = options.stdout;
    spawn_nn_client = options.spawn_client;
    remote_nn_port = options.client_port;
    spawn_broker = not options.no_broker;
  }

-- `detail::fuzz`: the launcher's process; its children are the `client`s of its forks.
abbrev pub detail :
    {M State : Type 0}
    → Launcher.Env State Call
    → Env
    → M
    → FuzzerOptions
    → Program (Launcher.Call Call) LibaflError (Unit {0})
detail machine env monitor options = do
  ask Launcher.new_shmem_provider (λ h. machine.done h Launcher.new_shmem_provider)
  Launcher.launch machine (launcher env options monitor)

unfoldable pub fuzz :
    {M State : Type 0}
    → Launcher.Env State Call
    → Env
    → M
    → FuzzerOptions
    → Program (Launcher.Call Call) LibaflError (Unit {0})
fuzz machine env monitor options = do
  (elim (check_options options) [ ok _ ↦ pure tt | err e ↦ throw e | panic ↦ die ])
  detail machine env monitor options

-- What `main` prints in the end.
pub data Farewell : Type 0 where
  good_bye : Farewell
  some_error : LibaflError → Farewell

unfoldable pub farewell : Outcome LibaflError (Unit {0}) → Option Farewell
farewell (ok _) = some good_bye
farewell (err shutting_down) = some good_bye
farewell (err e) = some (some_error e)
farewell panic = none
