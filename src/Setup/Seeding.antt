-- ===== src/Setup/Seeding.antt =====
-- The seeds of the clients that `fuzz` forks: what `check_options` is for.
use nn_fuzz.Base.{
  ℕ, zero, suc, ◌+◌, ◌≡◌, refl, List, [], ◌∷◌, ◌++◌, map, Option, none, some, Bool, true, false,
  contains, All, All-append, IsPrefix, inl, inr, Bool-cases, not, if◌then◌else◌,
}
use nn_fuzz.Base.Outcome.{Outcome, ok, err, panic}
use nn_fuzz.Base.Program.{
  Ends, Ends-ask, Ends-pure, Ends-throw, Ends-die, Ends->>=, Ends-impl, ◌>>=◌, pure, throw, die,
  ask, ◌>>◌,
}
use nn_fuzz.External.{LibaflError}
use nn_fuzz.Seeds.{count_up}
use nn_fuzz.Options.{FuzzerOptions, check_options, client_seed}
use nn_fuzz.Options.Laws.{client_seed_total}
use nn_fuzz.Launcher as Launcher
use nn_fuzz.Launcher.{Launcher, Call, fork, waitpid, launch}
use nn_fuzz.Launcher.Laws.{chosen, forks, created, broker_plan, start_plan, Launched, launch-Ends}
use nn_fuzz.Setup as Setup
use nn_fuzz.Setup.{fuzz, launcher, run_client}

All-IsPrefix : {A : Type 0} (P : A → Type 0) (xs ys : List A) → IsPrefix xs ys → All P ys → All P xs
All-IsPrefix P [] ys h all = tt
All-IsPrefix P (x ∷ xs) [] h all = absurd h
All-IsPrefix P (x ∷ xs) (y ∷ ys) (same, h) (p, all) = (rw same p, All-IsPrefix P xs ys h all)

-- On a machine whose cores are numbered by their positions, the cores that the launcher takes are
-- the chosen ones.
chosen-contains :
    (cores : List ℕ) (n id : ℕ)
    → All (λ c. contains c cores ≡ true) (chosen cores id (count_up n id))
unfolding count_up
chosen-contains cores zero id = tt
chosen-contains cores (suc n) id = elim (Bool-cases (contains id cores)) [
  | inl in_it ↦ rw in_it (in_it, chosen-contains cores n (id + 1))
  | inr other ↦ rw other (chosen-contains cores n (id + 1))
]

module _ (options : FuzzerOptions) (vals : List ℕ) where
  -- A fork is for a core whose client finds its seed among those given, at any time.
  abbrev pub IsSeeded : Call Setup.Call → Type 0
  IsSeeded (fork index core) =
      (nanos : ℕ)
      → (seed : ℕ) × (client_seed options nanos core ≡ ok seed) × (contains seed vals ≡ true)
  IsSeeded _ = Unit

  forks-IsSeeded :
      (index : ℕ) (cores : List ℕ)
      → options.seed.vals ≡ some vals
      → check_options options ≡ ok tt
      → All (λ c. contains c options.cores ≡ true) cores
      → All IsSeeded (forks index cores)
  forks-IsSeeded index [] given checked all = tt
  forks-IsSeeded index (core ∷ cores) given checked (c, all) = (
    tt,
    (
      (λ nanos. client_seed_total options nanos core vals given checked c),
      (tt, forks-IsSeeded (index + 1) cores given checked all),
    ),
  )

  waits-IsSeeded : (handles : List ℕ) → All IsSeeded (map waitpid handles)
  waits-IsSeeded [] = tt
  waits-IsSeeded (handle ∷ handles) = (tt, waits-IsSeeded handles)

  module _ {M State : Type 0} (machine : Launcher.Env State Setup.Call) (env : Setup.Env)
      (monitor : M) where
    abbrev ours : Launcher M State Setup.Call
    ours = launcher env options monitor

    start-IsSeeded :
        (n : ℕ)
        → options.seed.vals ≡ some vals
        → check_options options ≡ ok tt
        → All IsSeeded (start_plan machine ours (count_up n 0))
    start-IsSeeded n given checked = (tt, go options.stdout)
      where
        behind : All IsSeeded (forks 0 (chosen options.cores 0 (count_up n 0)))
        behind =
            forks-IsSeeded 0 (chosen options.cores 0 (count_up n 0)) given checked
              (chosen-contains options.cores n 0)

        go :
            (o : Option _)
            → All IsSeeded (created o ++ forks 0 (chosen options.cores 0 (count_up n 0)))
        go none = behind
        go (some filename) = (tt, behind)

    broker-IsSeeded : (b : Bool) → All IsSeeded (broker_plan machine ours b)
    broker-IsSeeded true = (tt, (tt, (tt, tt)))
    broker-IsSeeded false = (tt, (tt, tt))

    launched-IsSeeded :
        (n : ℕ)
        → options.seed.vals ≡ some vals
        → check_options options ≡ ok tt
        → (r : Outcome LibaflError (Unit {0})) (ks : List (Call Setup.Call))
        → Launched machine ours (count_up n 0) r ks
        → All IsSeeded ks
    launched-IsSeeded n given checked (ok _) ks (alone, (handles, count, e)) = rw e (
        All-append IsSeeded (start_plan machine ours (count_up n 0)) (map waitpid handles)
          (start-IsSeeded n given checked) (waits-IsSeeded handles))
    launched-IsSeeded n given checked (err e) ks early = All-IsPrefix IsSeeded ks _ early (
        All-append IsSeeded (start_plan machine ours (count_up n 0)) _
          (start-IsSeeded n given checked) (go (not options.no_broker)))
      where
        go :
            (b : Bool)
            → All IsSeeded (if b then broker_plan machine ours options.spawn_client else [])
        go true = broker-IsSeeded options.spawn_client
        go false = tt
    launched-IsSeeded n given checked panic ks early =
        All-IsPrefix IsSeeded ks _ early (start-IsSeeded n given checked)

    checking :
        (n : ℕ)
        → options.seed.vals ≡ some vals
        → machine.core_ids ≡ inr (count_up n 0)
        → (r : Outcome LibaflError (Unit {0})) → check_options options ≡ r
        → Ends
            (λ c. c)
            ((elim r [ ok _ ↦ pure tt | err e ↦ throw e | panic ↦ die ]) >>= λ _.
              ask Launcher.new_shmem_provider (λ h. machine.done h Launcher.new_shmem_provider)
              >> launch machine (launcher env options monitor))
            (λ _. All IsSeeded)
    checking n given known (ok _) e = Ends->>= (
        Ends-pure tt (
          Ends->>= (
            Ends-ask _ _
              (λ _.
                Ends-impl (launch-Ends machine ours _ (count_up n 0) refl known)
                  (λ r ks h. (tt, launched-IsSeeded n given e r ks h)))
              (λ _. (tt, tt)))))
    checking n given known (err x) e = Ends->>= (Ends-throw x tt)
    checking n given known panic e = Ends->>= (Ends-die tt)

    -- If seeds are given and the machine's cores are numbered by their positions, then whatever
    -- happens while `fuzz` runs, each client it forks is for a core that finds its seed among those
    -- given.
    pub fuzz-IsSeeded :
        (n : ℕ)
        → options.seed.vals ≡ some vals
        → machine.core_ids ≡ inr (count_up n 0)
        → Ends (λ c. c) (fuzz machine env monitor options) (λ _. All IsSeeded)
    unfolding fuzz
    fuzz-IsSeeded n given known = checking n given known (check_options options) refl
