-- ===== src/Setup/Children.antt =====
-- A forked client's process, from the fork to the end of its fuzzing: nn_fuzz/src/launcher.rs, where
-- it runs the closure of nn_fuzz/src/fuzz/unix.rs.
use nn_fuzz.Base.{
  ℕ, ◌*◌, ◌≡◌, refl, sym, ap, ◌∙◌, ◌⊎◌, inl, inr, List, [], ◌∷◌, ◌++◌, append_assoc, append-nil,
  map, Option, none, some, Bool, true, IsPrefix, IsPrefix-refl, not, if◌then◌else◌,
}
use nn_fuzz.Base.Text.{Bytes}
use nn_fuzz.Base.Outcome.{err}
use nn_fuzz.Base.Program.{kinds-id, Post, Ends, Ends-note, Ends-pure, Ends-embed, ◌>>=◌, ask, embed}
use nn_fuzz.Base.Histories.{
  EndsAt, EndsAt-lift, EndsAt-ask, EndsAt-when, EndsAt-maybe, EndsAt-impl, EndsAt->>=,
}
use nn_fuzz.External.{LibaflError}
use nn_fuzz.Options.{FuzzerOptions}
use nn_fuzz.Launcher as Launcher
use nn_fuzz.Launcher.{
  Launcher, Call, post_fork, sleep_ms, dup2_stdout, dup2_stderr, launch_client, in_client, client,
  tell,
}
use nn_fuzz.Setup as Setup
use nn_fuzz.Setup.{launcher, run_client}
use nn_fuzz.Setup.Laws.{Fuzzed}
use nn_fuzz.Setup.Protocol.{Prepared, run_client-Ends}

-- The calls that send the output of a client to the file, unless it is wanted on the terminal.
abbrev pub redirecting : Bool → Option Bytes → List (Call Setup.Call)
redirecting quiet stdout_file =
    if quiet then elim stdout_file [ some _ ↦ dup2_stdout ∷ dup2_stderr ∷ [] | none ↦ [] ] else []

module _ {M State : Type 0} (machine : Launcher.Env State Setup.Call) (env : Setup.Env)
    (options : FuzzerOptions) (monitor : M) where
  abbrev ours : Launcher M State Setup.Call
  ours = launcher env options monitor

  -- The calls of a process before it has a manager.
  abbrev pub entering : ℕ → ℕ → List (Call Setup.Call)
  entering index core =
      post_fork true
      ∷ sleep_ms (index * 100)
      ∷ (redirecting (not machine.debug_output) options.stdout
          ++ launch_client options.broker_port core ∷ [])

  -- The calls of a process before it launches its manager.
  abbrev starting : ℕ → List (Call Setup.Call)
  starting index =
      post_fork true
      ∷ sleep_ms (index * 100)
      ∷ redirecting (not machine.debug_output) options.stdout

  -- The last of the calls was answered with this error.
  abbrev pub IsRefused : List (Call Setup.Call) → LibaflError → List (Call Setup.Call) → Type 0
  IsRefused start e ks =
      (before : List (Call Setup.Call)) × (c : Call Setup.Call) × (ks ≡ before ++ c ∷ [])
      × ((machine.done (start ++ before) c ≡ inl e) ⊎ (machine.restarted (start ++ before) ≡ inl e))

  -- A process that fails early, or one that gets its manager behind these calls and with it a state, and
  -- does a client's set-up and fuzzing with that state.
  abbrev pub Lived : List (Call Setup.Call) → ℕ → ℕ → Post LibaflError (Call Setup.Call) (Unit {0})
  Lived start index core r ks =
      ((e : LibaflError) × (r ≡ err e) × IsRefused start e ks × IsPrefix ks (entering index core))
      ⊎ ((own : List Setup.Call) × (state : Option State) × (machine.restarted
              (start ++ starting index)
            ≡ inr state)
          × Fuzzed (Prepared env options [] state core) r own
          × (ks ≡ entering index core ++ map in_client own))

  module _ (start : List (Call Setup.Call)) (index core : ℕ) where
    running :
        (state : Option State)
        → machine.restarted (start ++ starting index) ≡ inr state
        → Ends
            (λ c. c)
            (embed in_client (run_client env options state core))
            (λ r more. Lived start index core r (entering index core ++ more))
    running state answer =
        let run = run_client-Ends env options [] state core in
        Ends-embed in_client _ (
          inr (
            run.calls,
            state,
            answer,
            run.ends,
            ap (λ q. entering index core ++ q)
                (kinds-id (map in_client _) ∙ ap (map in_client) run.grown),
          ))

    -- The call of the restarting manager, with the calls before it.
    managing :
        (h before : List (Call Setup.Call))
        → before ≡ redirecting (not machine.debug_output) options.stdout
        → h ≡ start ++ post_fork true ∷ sleep_ms (index * 100) ∷ before
        → EndsAt h
            (ask (launch_client options.broker_port core) machine.restarted >>= λ state.
              embed in_client (run_client env options state core))
            (λ r more.
              Lived start index core r (post_fork true ∷ sleep_ms (index * 100) ∷ (before ++ more)))
    managing h before e same = EndsAt->>= (
        EndsAt-ask h _ _
          (λ state answer.
            EndsAt-impl (EndsAt-lift (running state (rw (sym e, sym same) answer)) _)
              (λ r more lived.
                rw
                  (
                    e,
                    sym (
                        append_assoc (redirecting (not machine.debug_output) options.stdout)
                          (launch_client options.broker_port core ∷ []) more),
                  )
                  lived))
          (λ x refused. inl (
            x,
            refl,
            (
              post_fork true ∷ sleep_ms (index * 100) ∷ before,
              launch_client options.broker_port core,
              refl,
              inr (rw (sym same) refused),
            ),
            rw e (refl, (refl, IsPrefix-refl _)),
          )))

    begun :
        (more : List (Call Setup.Call))
        → ((start ++ post_fork true ∷ []) ++ sleep_ms (index * 100) ∷ []) ++ more
          ≡ start ++ post_fork true ∷ sleep_ms (index * 100) ∷ more
    begun more =
        ap (λ l. l ++ more) (append_assoc start (post_fork true ∷ []) (sleep_ms (index * 100) ∷ []))
        ∙ append_assoc start (post_fork true ∷ sleep_ms (index * 100) ∷ []) more

    -- A call of the process that is answered with an error ends it.
    refusing :
        (e : LibaflError) (before : List (Call Setup.Call)) (c : Call Setup.Call)
        {h : List (Call Setup.Call)}
        → h ≡ start ++ before
        → machine.done h c ≡ inl e
        → IsPrefix (before ++ c ∷ []) (entering index core)
        → Lived start index core (err e) (before ++ c ∷ [])
    refusing e before c same answer first =
        inl (e, refl, (before, c, refl, inl (rw (sym same) answer)), first)

    -- Whatever is answered: the process of a forked client tells the shared memory that it is the child,
    -- sleeps for a tenth of a second times its index, sends both of its outputs to the file if there is
    -- one and debug output is not wanted, and launches its manager on the broker's port and its own
    -- core. It fails at a first part of these calls, with the error that the last of them was answered
    -- with, or makes all of them and behind them no other calls than a client's set-up and fuzzing on
    -- that core, with exactly the state that the manager answers behind them, and ends as that does.
    pub client-Ends : EndsAt start (client machine ours index core) (Lived start index core)
    unfolding client
    client-Ends = EndsAt->>= (
        EndsAt-ask start _ _
          (λ _ _. EndsAt->>= (
            EndsAt-lift
              (Ends-note _ (
                EndsAt->>= (
                  EndsAt-when (not machine.debug_output)
                    (λ quiet.
                      EndsAt-maybe options.stdout
                        (λ e.
                          EndsAt-lift (Ends-pure tt (managing _ [] (rw (quiet, e) refl) (begun [])))
                            _)
                        (λ _ e. EndsAt->>= (
                          EndsAt-ask _ _ _
                            (λ _ _.
                              EndsAt-ask _ _ _
                                (λ _ _.
                                  managing _ (dup2_stdout ∷ dup2_stderr ∷ []) (rw (quiet, e) refl)
                                    (begun (dup2_stdout ∷ dup2_stderr ∷ [])))
                                (λ x answer.
                                  refusing x
                                    (post_fork true ∷ sleep_ms (index * 100) ∷ dup2_stdout ∷ [])
                                    dup2_stderr (begun (dup2_stdout ∷ [])) answer
                                    (rw (quiet, e) (refl, (refl, (refl, (refl, tt)))))))
                            (λ x answer.
                              refusing x (post_fork true ∷ sleep_ms (index * 100) ∷ []) dup2_stdout
                                (append_assoc start _ _) answer
                                (rw (quiet, e) (refl, (refl, (refl, tt))))))))
                    (λ loud.
                      EndsAt-lift (Ends-pure tt (managing _ [] (rw loud refl) (begun []))) _))))
              _))
          (λ x answer. refusing x [] (post_fork true) (sym (append-nil start)) answer (refl, tt)))
