-- ===== src/Launcher/Laws.antt =====
-- What the launcher does on every outcome: which clients it forks, on which cores, and how it ends.
use nn_fuzz.Base.{
  ℕ, suc, ◌+◌, ◌≡◌, refl, ap, ◌⊎◌, inl, inr, List, [], ◌∷◌, ◌++◌, append_assoc, append-nil, map,
  length, Option, none, some, Bool, true, false, contains, IsPrefix, IsPrefix-append,
  IsPrefix-behind, arith, if◌then◌else◌,
}
use mathlib.Core.Path.{subst}
use nn_fuzz.Base.Text.{Bytes}
use nn_fuzz.Base.Outcome.{Outcome, ok, err, panic}
use nn_fuzz.Base.Program.{
  Ends-maybe, Ends-when, pure, Ends-elim, Program, Post, Ends, Next, Ends-pure, Ends-ask, Ends-note,
  Ends-embed, Ends-demand, Ends-demand_known, Ends->>=, Ends-impl, kinds,
}
use nn_fuzz.External.{LibaflError}
use nn_fuzz.Llmp.Restarting as Restarting
use nn_fuzz.Llmp.Restarting.{NnRestartingMgr, create_attach_to_tcp, run_service, loop_forever}
use nn_fuzz.Launcher.{
  Call, kill_int, get_core_ids, create_file, pre_fork, fork, post_fork, in_broker, waitpid,
  Launcher, Env, spawn_clients, supervise, launch, for_all,
}

-- The cores of the machine at the positions that the options choose.
abbrev pub chosen : List ℕ → ℕ → List ℕ → List ℕ
chosen cores id [] = []
chosen cores id (core ∷ core_ids) =
    let rest = chosen cores (id + 1) core_ids in if contains id cores then core ∷ rest else rest

module _ {D : Type 0} where
  -- The calls that fork one client for each of the cores, numbered from the next index on.
  abbrev pub forks : ℕ → List ℕ → List (Call D)
  forks index [] = []
  forks index (core ∷ cores) =
      pre_fork ∷ fork (index + 1) core ∷ post_fork false ∷ forks (index + 1) cores

  abbrev pub created : Option Bytes → List (Call D)
  created none = []
  created (some filename) = create_file filename ∷ []

  abbrev pub AllForked : List ℕ → ℕ → Post LibaflError (Call D) (List ℕ)
  AllForked cores index (ok handles) ks = (ks ≡ forks index cores) × (length handles ≡ length cores)
  AllForked cores index (err _) ks = IsPrefix ks (forks index cores)
  AllForked cores index panic ks = ⊥

one_more :
    {D : Type 0} (index core pid : ℕ) (cores : List ℕ) (r : Outcome LibaflError (List ℕ))
    (ks : List (Call D))
    → AllForked cores (index + 1) r ks
    → Next
        (λ c. c)
        (λ handles. pure (pid ∷ handles))
        (λ r' more.
          AllForked
            (core ∷ cores)
            index
            r'
            (pre_fork ∷ fork (index + 1) core ∷ post_fork false ∷ more))
        r
        ks
one_more index core pid cores (ok handles) ks (same, count) =
    Ends-pure _ (rw (same, append-nil (forks (index + 1) cores)) refl, ap suc count)
one_more index core pid cores (err e) ks early = (refl, (refl, (refl, early)))
one_more index core pid cores panic ks impossible = absurd impossible

module _ {M State D : Type 0} (env : Env State D) (l : Launcher M State D) where
  spawn_clients-Ends :
      (index id : ℕ) (core_ids : List ℕ)
      → Ends
          (λ c. c)
          (spawn_clients env l index id core_ids)
          (AllForked (chosen l.cores id core_ids) index)
  unfolding spawn_clients
  spawn_clients-Ends index id [] = Ends-pure [] (refl, refl)
  spawn_clients-Ends index id (core ∷ core_ids) =
      Ends-elim (contains id l.cores)
        (λ e. rw e (
          Ends->>= (
            Ends-ask _ _
              (λ _. Ends->>= (
                Ends-ask _ _
                  (λ pid. Ends->>= (
                    Ends-ask _ _
                      (λ _. Ends->>= (
                        Ends-impl (spawn_clients-Ends (index + 1) (id + 1) core_ids)
                          (one_more index core pid (chosen l.cores (id + 1) core_ids))))
                      (λ _. ground arith)))
                  (λ _. ground arith)))
              (λ _. ground arith))))
        (λ e. rw e (spawn_clients-Ends index (id + 1) core_ids))

  -- The calls of the broker, by whether it serves networks.
  abbrev pub broker_plan : Bool → List (Call D)
  broker_plan true = map in_broker (
      create_attach_to_tcp l.broker_port
      ∷ run_service l.broker_port l.remote_nn_port
      ∷ loop_forever
      ∷ [])
  broker_plan false = map in_broker (create_attach_to_tcp l.broker_port ∷ loop_forever ∷ [])

  -- The calls up to the end of the loop over the cores.
  abbrev pub start_plan : List ℕ → List (Call D)
  start_plan core_ids =
      get_core_ids ∷ (created l.stdout_file ++ forks 0 (chosen l.cores 0 core_ids))

  abbrev pub Launched : List ℕ → Post LibaflError (Call D) (Unit {0})
  Launched core_ids (ok _) ks =
      (l.spawn_broker ≡ false)
      × ((handles : List ℕ) × (length handles ≡ length (chosen l.cores 0 core_ids))
          × (ks ≡ start_plan core_ids ++ map waitpid handles))
  Launched core_ids (err _) ks =
      IsPrefix ks
        (start_plan core_ids ++ (if l.spawn_broker then broker_plan l.spawn_nn_client else []))
  Launched core_ids panic ks = IsPrefix ks (start_plan core_ids)

  for_all-Ends :
      (c : ℕ → Call D) (handles : List ℕ)
      → Ends (λ k. k) (for_all env l c handles) (λ r ks. (r ≡ ok tt) × (ks ≡ map c handles))
  for_all-Ends c [] = Ends-pure tt (refl, refl)
  for_all-Ends c (handle ∷ handles) = Ends->>= (
      Ends-note (c handle)
        (Ends-impl (for_all-Ends c handles) (λ r ks h. (h.0, ap (λ q. c handle ∷ q) h.1))))

  abbrev Supervised : Bool → List ℕ → Post LibaflError (Call D) (Unit {0})
  Supervised spawn handles (ok _) ks = (l.spawn_broker ≡ false) × (ks ≡ map waitpid handles)
  Supervised spawn handles (err _) ks = (l.spawn_broker ≡ true) × IsPrefix ks (broker_plan spawn)
  Supervised spawn handles panic ks = ⊥

  waited :
      (handles : List ℕ)
      → l.spawn_broker ≡ false
      → (r : Outcome LibaflError (Unit {0})) (ks : List (Call D))
      → (r ≡ ok tt) × (ks ≡ map waitpid handles)
      → Supervised l.spawn_nn_client handles r ks
  waited handles e (ok _) ks h = (e, h.1)
  waited handles e (err x) ks h = cc
  waited handles e panic ks h = cc

  abbrev manager : Bool → NnRestartingMgr M
  manager spawn = record {
    monitor = some (l.monitor);
    broker_port = l.broker_port;
    spawn_nn_client = spawn;
    remote_nn_port = l.remote_nn_port;
  }

  -- The broker never ends well, so what follows it is never reached.
  broker_ends :
      (handles : List ℕ) (attached : LibaflError ⊎ Unit {0}) (spawn : Bool)
      → l.spawn_broker ≡ true
      → let run = Restarting.launch attached (manager spawn) [] in
        Next
          (λ c. c)
          (λ _. for_all env l kill_int handles)
          (Supervised spawn handles)
          run.0
          (kinds (λ c. c) (map in_broker run.1))
  unfolding Restarting.launch kinds
  broker_ends handles (inl x) true e = (e, (refl, tt))
  broker_ends handles (inl x) false e = (e, (refl, tt))
  broker_ends handles (inr _) true e = (e, (refl, (refl, (refl, tt))))
  broker_ends handles (inr _) false e = (e, (refl, (refl, tt)))

  supervise-Ends :
      (handles : List ℕ)
      → Ends (λ c. c) (supervise env l handles) (Supervised l.spawn_nn_client handles)
  unfolding supervise Restarting.launch kinds
  supervise-Ends handles =
      Ends-when l.spawn_broker
        (λ e.
          Ends->>= (Ends-embed in_broker _ (broker_ends handles env.attached l.spawn_nn_client e)))
        (λ e. Ends-impl (for_all-Ends waitpid handles) (λ r ks h. waited handles e r ks h))

  -- What the parts give together.
  started :
      (core_ids handles : List ℕ) (r : Outcome LibaflError (Unit {0})) (ks : List (Call D))
      → length handles ≡ length (chosen l.cores 0 core_ids)
      → Supervised l.spawn_nn_client handles r ks
      → Launched core_ids r (start_plan core_ids ++ ks)
  started core_ids handles (ok _) ks count h =
      (h.0, (handles, count, ap (λ q. start_plan core_ids ++ q) h.1))
  started core_ids handles (err x) ks count h =
      rw h.0 (IsPrefix-behind (start_plan core_ids) ks (broker_plan l.spawn_nn_client) h.1)
  started core_ids handles panic ks count h = absurd h

  spawning :
      (core_ids : List ℕ) (file : List (Call D))
      → file ≡ created l.stdout_file
      → (r : Outcome LibaflError (List ℕ)) (ks : List (Call D))
      → AllForked (chosen l.cores 0 core_ids) 0 r ks
      → Next
          (λ c. c)
          (supervise env l)
          (λ r' more. Launched core_ids r' (get_core_ids ∷ (file ++ more)))
          r
          ks
  spawning core_ids file e (ok handles) ks (same, count) =
      Ends-impl (supervise-Ends handles) (λ r more h.
        subst (Launched core_ids r)
          (rw (e, same)
            (ap (λ q. get_core_ids ∷ q)
              (append_assoc (created l.stdout_file) (forks 0 (chosen l.cores 0 core_ids)) more)))
          (started core_ids handles r more count h))
  spawning core_ids file e (err x) ks early = (
    refl,
    IsPrefix-append (file ++ ks) (created l.stdout_file ++ forks 0 (chosen l.cores 0 core_ids)) _ (
        rw e
          (IsPrefix-behind (created l.stdout_file) ks (forks 0 (chosen l.cores 0 core_ids)) early)),
  )
  spawning core_ids file e panic ks impossible = absurd impossible

  pub launch-Ends :
      (run : Option State → ℕ → Program D LibaflError (Unit {0})) (core_ids : List ℕ)
      → l.run_client ≡ some run
      → env.core_ids ≡ inr core_ids
      → Ends (λ c. c) (launch env l) (Launched core_ids)
  unfolding launch
  launch-Ends run core_ids given known =
      Ends-maybe l.run_client (λ absent. absurd cc)
        (λ _ _. Ends->>= (
          Ends-demand_known get_core_ids _ core_ids (λ _. known)
            (Ends->>= (
              Ends-maybe l.stdout_file
                (λ e. Ends-pure tt (
                  Ends->>= (
                    Ends-impl (spawn_clients-Ends 0 0 core_ids)
                      (spawning core_ids [] (rw e refl)))))
                (λ filename e.
                  Ends-demand (create_file filename) _
                    (λ _. Ends->>= (
                      Ends-impl (spawn_clients-Ends 0 0 core_ids)
                        (spawning core_ids (create_file filename ∷ []) (rw e refl))))
                    (rw e (refl, (refl, tt))))))))
