-- ===== src/Server/Service/Loop.antt =====
-- The loop of `run_service` over its connections: what a connection finds, whatever came before it.
use nn_fuzz.Base.{
  ◌≡◌, refl, sym, ap, ◌∙◌, List, [], ◌∷◌, ◌++◌, append_assoc, append-nil, All, false, Bool,
}
use nn_fuzz.Std.Net.{Socket}
use nn_fuzz.External.{Codec}
use nn_fuzz.Messages.{TcpRequest, TcpResponce}
use nn_fuzz.Server.Service.{
  ListenerStream, tcp, empty, NnDescription, Round, continue, spawn, crash, welcome, run_service,
}

abbrev pub Tasks : Type 0
Tasks = List (NnDescription × Socket)

-- The stream has got a task, with this description of its client.
abbrev pub IsServed : NnDescription → Socket → Tasks → Type 0
IsServed desc t tasks = (earlier : Tasks) × (later : Tasks) × (tasks ≡ earlier ++ (desc, t) ∷ later)

module _ (requests : Codec TcpRequest) (responces : Codec TcpResponce) where
  -- A connection that does not end the service.
  abbrev pub Survives : ListenerStream → Type 0
  Survives (tcp s) = ¬ (welcome requests responces s ≡ crash)
  Survives empty = Unit

  abbrev after : List ListenerStream → Tasks → Round → Tasks
  after more tasks (continue _) = (run_service requests responces more tasks).0
  after more tasks (spawn desc s) =
      (run_service requests responces more (tasks ++ (desc, s) ∷ [])).0
  after more tasks crash = tasks

  run_service-after :
      (s : Socket) (more : List ListenerStream) (tasks : Tasks)
      → (run_service requests responces (tcp s ∷ more) tasks).0
        ≡ after more tasks (welcome requests responces s)
  unfolding run_service
  run_service-after s more tasks = go (welcome requests responces s)
    where
      go :
          (r : Round)
          → (let x : Tasks × Bool = elim r [
            | continue _ ↦ run_service requests responces more tasks
            | spawn desc s ↦ run_service requests responces more (tasks ++ (desc, s) ∷ [])
            | crash ↦ (tasks, false)
          ] in
              x.0)
            ≡ after more tasks r
      go (continue _) = refl
      go (spawn _ _) = refl
      go crash = refl

  -- The tasks that are spawned stay: first for one connection, by how it ends.
  stay_after :
      (cs : List ListenerStream) (tasks : Tasks)
      → ((ts : Tasks) → (later : Tasks) × ((run_service requests responces cs ts).0 ≡ ts ++ later))
      → (r : Round) → (later : Tasks) × (after cs tasks r ≡ tasks ++ later)
  stay_after cs tasks stays (continue _) = stays tasks
  stay_after cs tasks stays (spawn desc s) =
      let (later, e) = stays (tasks ++ (desc, s) ∷ []) in
      ((desc, s) ∷ later, e ∙ append_assoc tasks ((desc, s) ∷ []) later)
  stay_after cs tasks stays crash = ([], sym (append-nil tasks))

  tasks_stay :
      (cs : List ListenerStream) (tasks : Tasks)
      → (later : Tasks) × ((run_service requests responces cs tasks).0 ≡ tasks ++ later)
  unfolding run_service
  tasks_stay [] tasks = ([], sym (append-nil tasks))
  tasks_stay (empty ∷ more) tasks = tasks_stay more tasks
  tasks_stay (tcp s ∷ more) tasks =
      let (later, e) =
        stay_after more tasks (λ ts. tasks_stay more ts) (welcome requests responces s) in
      (later, run_service-after s more tasks ∙ e)

  module _ (desc : NnDescription) (s t : Socket) (more : List ListenerStream)
      (spawned : welcome requests responces s ≡ spawn desc t) where
    after-IsServed :
        (cs : List ListenerStream) (tasks : Tasks) (r : Round)
        → ¬ (r ≡ crash)
        → ((ts : Tasks)
            → IsServed desc t (run_service requests responces (cs ++ tcp s ∷ more) ts).0)
        → IsServed desc t (after (cs ++ tcp s ∷ more) tasks r)
    after-IsServed cs tasks (continue _) survives served = served tasks
    after-IsServed cs tasks (spawn d u) survives served = served (tasks ++ (d, u) ∷ [])
    after-IsServed cs tasks crash survives served = absurd (survives refl)

    -- A connection whose hello is well gets its task, whatever the connections before it did, if none
    -- of them ended the service, and whatever those behind it do.
    pub run_service-IsServed :
        (before : List ListenerStream) (tasks : Tasks)
        → All Survives before
        → IsServed desc t (run_service requests responces (before ++ tcp s ∷ more) tasks).0
    unfolding run_service
    run_service-IsServed [] tasks survive =
        let (later, e) = tasks_stay more (tasks ++ (desc, t) ∷ []) in
        (
          tasks,
          later,
          run_service-after s more tasks
              ∙ ap (after more tasks) spawned
              ∙ e
              ∙ append_assoc tasks ((desc, t) ∷ []) later,
        )
    run_service-IsServed (empty ∷ before) tasks (_, survive) =
        run_service-IsServed before tasks survive
    run_service-IsServed (tcp u ∷ before) tasks (survives, survive) =
        rw (run_service-after u (before ++ tcp s ∷ more) tasks) (
          after-IsServed before tasks (welcome requests responces u) survives
            (λ ts. run_service-IsServed before ts survive))
