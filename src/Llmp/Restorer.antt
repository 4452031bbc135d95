-- ===== src/Llmp/Restorer.antt =====
-- nn_fuzz/src/llmp/extention.rs: `RestartingNnEventManager`, an `NNEventManager` with the restorer that
-- keeps the state for the next process.
use nn_fuzz.Base.{ℕ, ◌⊎◌, inl, inr, List, [], ◌∷◌, ◌++◌}
use nn_fuzz.Base.Outcome.{ok, err}
use nn_fuzz.Base.Action.{Action, ◌>>=◌, ◌>>◌}
use nn_fuzz.External.{Codec, Gzip, Libafl, LibaflError}
use nn_fuzz.Messages.{Event}
use nn_fuzz.Llmp.{Flags}
use nn_fuzz.Llmp.Manager as Manager
use nn_fuzz.Llmp.Manager.{NnEventManager, describe}

-- What a `StateRestorer` is asked, and what it will answer to the coming saves; at the end of `replies`
-- saves succeed.
pub data Restore (State Description : Type 0) : Type 0 where
  reset : Restore State Description
  save : State → Description → Restore State Description

pub record StateRestorer (State Description : Type 0) : Type 0 where
  pub asked : List (Restore State Description)
  pub replies : List (LibaflError ⊎ Unit {0})

pub record RestartingNnEventManager (L : Libafl) (State : Type 0) : Type 0 where
  pub mgr : NnEventManager L
  pub staterestorer : StateRestorer State L.Description

abbrev pub Restarting : Libafl → Type 0 → Type 0 → Type 0
Restarting L State = Action (RestartingNnEventManager L State) LibaflError

module _ {L : Libafl} {State : Type 0} where
  -- `RestartingNnEventManager::new`
  unfoldable pub new :
      NnEventManager L → StateRestorer State L.Description → RestartingNnEventManager L State
  new mgr staterestorer = record { mgr = mgr; staterestorer = staterestorer }

  -- A method of the embedded manager.
  abbrev pub embedded :
      {A : Type 0} → Action (NnEventManager L) LibaflError A → Restarting L State A
  embedded act m = let (r, mgr) = act m.mgr in (r, record m { mgr = mgr })

  unfoldable pub fire : Flags → Codec (Event L) → Gzip → Event L → Restarting L State (Unit {0})
  fire f events g event = embedded (Manager.fire f events g event)

  unfoldable pub process : Restarting L State ℕ
  process = embedded Manager.process

  unfoldable pub await_restart_safe : Restarting L State (Unit {0})
  await_restart_safe = embedded Manager.await_restart_safe

  unfoldable pub configuration : RestartingNnEventManager L State → L.EventConfig
  configuration m = m.mgr.configuration

  unfoldable pub mgr_id : RestartingNnEventManager L State → ℕ
  mgr_id m = Manager.mgr_id m.mgr

  abbrev reset_restorer : Restarting L State (Unit {0})
  reset_restorer m = (
    ok tt,
    record m {
      staterestorer = record (m.staterestorer) { asked = m.staterestorer.asked ++ reset ∷ [] };
    },
  )

  abbrev save_restorer : State → L.Description → Restarting L State (Unit {0})
  save_restorer state description m =
      let asked = m.staterestorer.asked ++ save state description ∷ [] in
      elim m.staterestorer.replies [
        | [] ↦ (ok tt, record m { staterestorer = record (m.staterestorer) { asked = asked } })
        | inr _ ∷ more ↦
            (ok tt, record m { staterestorer = record { asked = asked; replies = more } })
        | inl e ∷ more ↦
            (err e, record m { staterestorer = record { asked = asked; replies = more } })
      ]

  -- The restorer is reset before the manager is described.
  unfoldable pub on_restart : State → Restarting L State (Unit {0})
  on_restart state = do
    reset_restorer
    description ← embedded describe
    save_restorer state description
