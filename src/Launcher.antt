-- ===== src/Launcher.antt =====
-- nn_fuzz/src/launcher.rs: `Launcher::launch` on Unix, which forks a client for each chosen core and
-- then is the broker, or waits for its clients.
pub mod Laws
use nn_fuzz.Base.{
  ℕ, ◌+◌, ◌*◌, ◌⊎◌, inl, inr, List, [], ◌∷◌, Option, none, some, Bool, true, false, contains, not,
  if◌then◌else◌,
}
use nn_fuzz.Base.Text.{Bytes, codes}
use nn_fuzz.Base.Program.{Program, pure, ◌>>=◌, ◌>>◌, ask, demand, note, embed, read, throw, die}
use nn_fuzz.External.{LibaflError, illegal_argument}
use nn_fuzz.Llmp.Restarting as Restarting
use nn_fuzz.Llmp.Restarting.{NnRestartingMgr}

-- A call that the launcher makes, and before it `fuzz`. `fork` makes two processes of one: the child goes on with
-- `client index bind_to`, with what the launcher had then.
pub data Call (D : Type 0) : Type 0 where
  new_shmem_provider : Call D
  get_core_ids : Call D
  create_file : (filename : Bytes) → Call D
  pre_fork : Call D
  fork : (index bind_to : ℕ) → Call D
  post_fork : (is_child : Bool) → Call D
  in_broker : Restarting.Call → Call D
  kill_int : (pid : ℕ) → Call D
  waitpid : (pid : ℕ) → Call D
  sleep_ms : ℕ → Call D
  dup2_stdout dup2_stderr : Call D
  launch_client : (broker_port cpu_core : ℕ) → Call D
  in_client : D → Call D

-- `State` is what a restarted client goes on with; `D` are the calls of a client's `main`.
pub record Launcher (M State D : Type 0) : Type 0 where
  pub monitor : M
  pub run_client : Option (Option State → ℕ → Program D LibaflError (Unit {0}))
  pub broker_port : ℕ
  pub cores : List ℕ
  pub stdout_file : Option Bytes
  pub spawn_nn_client : Bool
  pub remote_nn_port : ℕ
  pub spawn_broker : Bool

-- How the operating system and LibAFL answer. `debug_output` is whether `LIBAFL_DEBUG_OUTPUT` is set.
pub record Env (State D : Type 0) : Type 0 where
  pub core_ids : LibaflError ⊎ List ℕ
  pub done : List (Call D) → Call D → LibaflError ⊎ Unit {0}
  pub child : List (Call D) → LibaflError ⊎ ℕ
  pub attached : LibaflError ⊎ Unit {0}
  pub restarted : List (Call D) → LibaflError ⊎ Option State
  pub debug_output : Bool

module _ {M State D : Type 0} (env : Env State D) (l : Launcher M State D) where
  abbrev pub tell : Call D → Program (Call D) LibaflError (Unit {0})
  tell c = ask c (λ h. env.done h c)

  -- The child of a fork, up to the end of its process.
  unfoldable pub client : ℕ → ℕ → Program (Call D) LibaflError (Unit {0})
  client index bind_to = do
    tell (post_fork true)
    note (sleep_ms (index * 100))
    (if not env.debug_output
        then elim (l.stdout_file) [
          | some _ ↦ (tell dup2_stdout >> tell dup2_stderr)
          | none ↦ pure tt
        ]
        else pure tt)
    state ← ask (launch_client l.broker_port bind_to) env.restarted
    elim (l.run_client) [ some run ↦ embed in_client (run state bind_to) | none ↦ die ]

  -- The parent's loop over the cores of the machine: the process identifiers of the children.
  pub spawn_clients : ℕ → ℕ → List ℕ → Program (Call D) LibaflError (List ℕ)
  spawn_clients index id [] = pure []
  spawn_clients index id (bind_to ∷ core_ids) = elim (contains id l.cores) [
    | true ↦ (do
      tell pre_fork
      pid ← ask (fork (index + 1) bind_to) env.child
      tell (post_fork false)
      handles ← spawn_clients (index + 1) (id + 1) core_ids
      pure (pid ∷ handles))
    | false ↦ spawn_clients index (id + 1) core_ids
  ]

  abbrev pub for_all : (ℕ → Call D) → List ℕ → Program (Call D) LibaflError (Unit {0})
  for_all c [] = pure tt
  for_all c (handle ∷ handles) = note (c handle) >> for_all c handles

  -- The parent behind the loop.
  unfoldable pub supervise : List ℕ → Program (Call D) LibaflError (Unit {0})
  supervise handles =
      if l.spawn_broker
      then (do
        embed in_broker (
            Restarting.launch env.attached (record {
              monitor = some (l.monitor);
              broker_port = l.broker_port;
              spawn_nn_client = l.spawn_nn_client;
              remote_nn_port = l.remote_nn_port;
            }))
        for_all kill_int handles)
      else for_all waitpid handles

  unfoldable pub launch : Program (Call D) LibaflError (Unit {0})
  unfolding spawn_clients supervise
  launch = elim (l.run_client) [
    | none ↦ throw (illegal_argument (codes "No client callback provided"))
    | some _ ↦ (do
      core_ids ← demand get_core_ids (λ _. env.core_ids)
      elim (l.stdout_file) [
        | some filename ↦ demand (create_file filename) (λ h. env.done h (create_file filename))
        | none ↦ pure tt
      ]
      handles ← spawn_clients 0 0 core_ids
      supervise handles)
  ]
