-- ===== src/Tests/Processes.antt =====
-- The processes of a run: the launcher, a client, and a restart of its event manager.
use nn_fuzz.Base.{◌≡◌, refl, inr, [], ◌∷◌, none, some, Bool, true, false, All}
use nn_fuzz.Base.Text.{codes}
use nn_fuzz.Base.Outcome.{ok}
use nn_fuzz.Base.Program.{Ends, pure, ◌>>=◌, ask, attempt, read, demand, note, embed, throw}
use nn_fuzz.Base.Histories.{EndsAt}
use nn_fuzz.Options.{FuzzerOptions, default_options, check_options, client_seed}
use nn_fuzz.Seeds.{count_up}
use nn_fuzz.Llmp.Restarting as Restarting
use nn_fuzz.Launcher as Launcher
use nn_fuzz.Launcher.{Call, Launcher, fork, waitpid, get_core_ids, pre_fork, post_fork}
use nn_fuzz.Setup as Setup
use nn_fuzz.Setup.{
  new_shmem_provider, new_shmem, write_to_env, open_queue, open_output, new_state, add_from_files,
  fire_loaded, add_metadata, read_to_string, new_timeout_executor, generate_initial_inputs, provide,
  open_state, load_tokens, harness_args, build_executor, fill_corpus,
}
use nn_fuzz.Args.{increment, mutate_args, mutate_loop, increment_arg}
use nn_fuzz.Std.Decimal.{to_string, parse_u64}
use nn_fuzz.Server.Service.{map_size}
use nn_fuzz.Setup.Laws.{IsRun, Fuzzed}
use nn_fuzz.Setup.Protocol.{Prepared, run_client-Ends}
use nn_fuzz.Setup.Reaching.{run_client_enters}
use nn_fuzz.Setup.Children.{Lived, client-Ends}
use nn_fuzz.Setup.Seeding.{IsSeeded, fuzz-IsSeeded}

-- Two of four cores, with the seeds 10 and 11, and no broker.
abbrev options : FuzzerOptions
options = record (default_options (codes "target")) {
  cores = 1 ∷ 3 ∷ [];
  seed = record { cmdline = codes "10-11"; vals = some (10 ∷ 11 ∷ []) };
  no_broker = true;
}

abbrev env : Setup.Env
env = record {
  done = λ h c. inr tt;
  has_tokens = λ h. false;
  tokens = λ h. inr 0;
  config = λ h. inr none;
  corpus_count = λ h. 0;
  fuzzed = λ h. ok tt;
  nanos = 0;
  parse_text = λ e. [];
  checks = true;
}

abbrev machine : Launcher.Env Unit Setup.Call
machine = record {
  core_ids = inr (count_up 4 0);
  done = λ h c. inr tt;
  child = λ h. inr 100;
  attached = inr tt;
  restarted = λ h. inr none;
  debug_output = false;
}

abbrev launcher : Launcher Bool Unit Setup.Call
launcher = Setup.launcher env options true

-- The clients are on the cores 1 and 3.
two_clients :
    (Launcher.launch machine launcher []).1
    ≡ get_core_ids
      ∷ pre_fork
      ∷ fork 1 1
      ∷ post_fork false
      ∷ pre_fork
      ∷ fork 2 3
      ∷ post_fork false
      ∷ waitpid 100
      ∷ waitpid 100
      ∷ []
unfolding Launcher.launch count_up demand ask note pure ◌>>=◌
two_clients = refl

-- The arguments of the target depend on the core, and there are tokens to load.
abbrev tuned : FuzzerOptions
tuned = record options {
  tokens = codes "json.dict" ∷ [];
  args = codes "-p" ∷ codes "80" ∷ [];
  core_args_config = some (codes "args.json");
}

abbrev answering : Setup.Env
answering = record env {
  tokens = λ h. inr 7;
  config = λ h. inr (some ((codes "-p", increment) ∷ []));
}

run_client-Ends_example :
    EndsAt []
      (Setup.run_client answering tuned {State = Unit} none 3)
      (Fuzzed (Prepared answering tuned {State = Unit} [] none 3))
run_client-Ends_example = run_client-Ends answering tuned {State = Unit} [] none 3

run_client_enters_example :
    EndsAt []
      (Setup.run_client answering tuned {State = Unit} none 3)
      (IsRun (Prepared answering tuned {State = Unit} [] none 3))
unfolding client_seed mutate_args mutate_loop increment_arg to_string parse_u64
run_client_enters_example =
    run_client_enters answering tuned (λ h c. refl) {State = Unit} [] none 3 11 refl
      (λ h. (7, refl)) (λ h. (codes "-p" ∷ codes "83" ∷ [], refl))

-- The client on core 3 draws the second seed, and its target listens on port 83.
third_client :
    (Setup.run_client answering tuned {State = Unit} none 3 []).1
    ≡ new_shmem_provider
      ∷ new_shmem map_size
      ∷ write_to_env (codes "__AFL_SHM_ID")
      ∷ open_queue tuned.queue 64
      ∷ open_output tuned.output
      ∷ new_state 11 Setup.feedback Setup.objective
      ∷ add_from_files (codes "json.dict" ∷ [])
      ∷ fire_loaded 7 (codes "json.dict" ∷ [])
      ∷ add_metadata 7
      ∷ read_to_string (codes "args.json")
      ∷ Setup.forkserver answering tuned 3 (codes "-p" ∷ codes "83" ∷ [])
      ∷ new_timeout_executor tuned.timeout
      ∷ generate_initial_inputs tuned.input_max_length tuned.generate_count
      ∷ Setup.fuzzing
      ∷ []
unfolding Setup.run_client provide open_state load_tokens harness_args build_executor fill_corpus
    client_seed mutate_args mutate_loop increment_arg to_string parse_u64 ask attempt demand note
    read pure throw ◌>>=◌
third_client = refl

client-Ends_example :
    EndsAt []
      (Launcher.client machine launcher 2 3)
      (Lived {M = Bool} machine env options true [] 2 3)
client-Ends_example = client-Ends machine env options true [] 2 3

fuzz-IsSeeded_example :
    Ends (λ c. c) (Setup.fuzz machine env true options) (λ _. All (IsSeeded options (10 ∷ 11 ∷ [])))
fuzz-IsSeeded_example = fuzz-IsSeeded options (10 ∷ 11 ∷ []) machine env true 4 refl refl

-- With a broker whose loop ends, the parent says good bye.
broker_says_good_bye :
    Setup.farewell (Setup.fuzz machine env true (record options { no_broker = false }) []).0
    ≡ some Setup.good_bye
unfolding Setup.farewell Setup.fuzz Launcher.launch Restarting.launch count_up check_options demand
    ask note embed pure throw ◌>>=◌
broker_says_good_bye = refl
