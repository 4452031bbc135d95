-- ===== src/Llmp/Restarting.antt =====
-- nn_fuzz/src/llmp/mod.rs: `NnRestartingMgr`, which starts the broker.
use nn_fuzz.Base.{ℕ, ◌⊎◌, inl, inr, List, [], ◌∷◌, ◌++◌, Bool, Option, none, some, if◌then◌else◌}
use nn_fuzz.Base.Outcome.{ok, err, panic}
use nn_fuzz.Base.Action.{Action, ◌>>=◌, pure, ◌>>◌, throw}
use nn_fuzz.External.{LibaflError, shutting_down}
use nn_fuzz.Llmp.{compress_threshold}

-- What a launch has done, in order. `run_service` is started on a thread of its own.
pub data Call : Type 0 where
  create_attach_to_tcp : (port : ℕ) → Call
  run_service : (broker_port nn_port : ℕ) → Call
  loop_forever : Call

pub record LlmpNnBroker : Type 0 where
  pub port : ℕ

-- `compressor` is the compressor's threshold.
pub record LlmpNnEventBroker (M : Type 0) : Type 0 where
  pub monitor : M
  pub llmp : LlmpNnBroker
  pub compressor : ℕ

pub record NnRestartingMgr (M : Type 0) : Type 0 where
  pub monitor : Option M
  pub broker_port : ℕ
  pub spawn_nn_client : Bool
  pub remote_nn_port : ℕ

abbrev Launch : Type 0 → Type 0
Launch = Action (List Call) LibaflError

abbrev call : Call → Launch (Unit {0})
call c s = (ok tt, s ++ c ∷ [])

-- `LlmpNnBroker::create_attach_to_tcp`; `attached` is what LibAFL's broker answers.
abbrev pub create_attach : LibaflError ⊎ Unit {0} → ℕ → Launch LlmpNnBroker
create_attach attached port s = elim attached [
  | inl e ↦ (err e, s ++ create_attach_to_tcp port ∷ [])
  | inr _ ↦ (ok (record { port = port }), s ++ create_attach_to_tcp port ∷ [])
]

abbrev pub new_on_port :
    {M : Type 0} → LibaflError ⊎ Unit {0} → M → ℕ → Launch (LlmpNnEventBroker M)
new_on_port attached monitor port = do
  llmp ← create_attach attached port
  pure (record { monitor = monitor; llmp = llmp; compressor = compress_threshold })

-- `LlmpNnEventBroker::spawn_client` calls `LlmpNnBroker::spawn_client`.
abbrev pub spawn_client : {M : Type 0} → LlmpNnEventBroker M → ℕ → Launch (Unit {0})
spawn_client broker port = call (run_service broker.llmp.port port)

-- The closure `broker_things`; `LlmpNnEventBroker::broker_loop` returns `Ok` when LibAFL's loop ends.
abbrev broker_things : {M : Type 0} → LlmpNnEventBroker M → Option ℕ → Launch (Unit {0})
broker_things broker none = call loop_forever
broker_things broker (some nn_port) = spawn_client broker nn_port >> call loop_forever

-- `monitor.take().unwrap()` panics without a monitor.
unfoldable pub launch :
    {M : Type 0} → LibaflError ⊎ Unit {0} → NnRestartingMgr M → Launch (Unit {0})
launch attached mgr = elim mgr.monitor [
  | none ↦ (λ s. (panic, s))
  | some monitor ↦ (do
    event_broker ← new_on_port attached monitor mgr.broker_port
    broker_things event_broker (if mgr.spawn_nn_client then some mgr.remote_nn_port else none)
    throw shutting_down)
]
