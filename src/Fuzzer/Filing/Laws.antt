-- ===== src/Fuzzer/Filing/Laws.antt =====
-- What `HeavyFuzzer` makes of an input, by what its environment answers.
use nn_fuzz.Base.{
  ℕ, ◌≡◌, refl, ap, inr, All, List, [], ◌∷◌, ◌++◌, ◌∙◌, append-nil, Option, Bool, true, false,
  if◌then◌else◌,
}
use nn_fuzz.Base.Outcome.{Outcome, ok, err, panic}
use nn_fuzz.Base.Program.{
  Ends, Ends->>=, Ends-ask, Ends-answer, Ends-impl, Ends-pure, Ends-read, Ends-when, Post,
}
use nn_fuzz.External.{Libafl, LibaflError}
use nn_fuzz.Messages.{Event, objective}
use nn_fuzz.Fuzzer.{
  ExecuteInputResult, corpus, Testcases, Call, Env, History, fire, fire_if, execute_input, rate,
  file, file_none, file_solution, file_corpus, process_execution, evaluate_input,
}
use nn_fuzz.Fuzzer.Filing.{
  IsAbout, Said, fired, executed, objective_asks, feedback_asks, IsFiled, IsEvaluated,
}

module _ {L : Libafl} {T : Testcases L} (env : Env L T) (input : L.Input) where
  pub executes :
      {Q : Post LibaflError (Call L T) L.ExitKind}
      → ((k : L.ExitKind)
          → (h : History L T) × (env.exit_kind h input ≡ inr k)
          → Q (ok k) (executed env input k))
      → ((e : LibaflError) (ks : List (Call L T)) → All (IsAbout env input) ks → Q (err e) ks)
      → Ends (λ c. c) (execute_input env input) Q
  unfolding execute_input
  executes good bad = Ends->>= (
      Ends-ask _ _
        (λ _. Ends->>= (
          Ends-ask _ _
            (λ _. Ends->>= (
              Ends-answer _ _
                (λ h k ran. Ends->>= (
                  Ends-ask _ _ (λ _. Ends-pure k (good k (h, ran)))
                    (λ e. bad e _ (refl, (tt, (refl, (refl, tt)))))))
                (λ e. bad e _ (refl, (tt, (refl, tt))))))
            (λ e. bad e _ (refl, (tt, tt)))))
        (λ e. bad e _ (refl, tt)))

  module _ (exit_kind : L.ExitKind) where
    abbrev ObjectiveSaid : Bool → Type 0
    ObjectiveSaid = Said env input (objective_asks env input exit_kind)

    abbrev FeedbackSaid : Bool → Type 0
    FeedbackSaid = Said env input (feedback_asks env input exit_kind)

    fired-Ends :
        (send : Bool) (event : History L T → Event L) {Q : Post LibaflError (Call L T) (Unit {0})}
        → ((h : History L T) → Q (ok tt) (fired env input send (event h)))
        → ((e : LibaflError) (h : History L T) → Q (err e) (fire (event h) ∷ []))
        → Ends (λ c. c) (fire_if env send event) Q
    fired-Ends true event good bad =
        Ends->>= (Ends-read event (λ h. Ends-ask (fire (event h)) _ (λ _. good h) (λ e. bad e h)))
    fired-Ends false event good bad = Ends-pure tt (good [])

    forgets :
        (send : Bool)
        → ObjectiveSaid false
        → FeedbackSaid false
        → Ends
            (λ c. c)
            (file_none env input)
            (λ r ks.
              IsFiled env input exit_kind send r
                (objective_asks env input exit_kind ∷ feedback_asks env input exit_kind ∷ ks))
    unfolding file_none
    forgets send o f = Ends->>= (
        Ends-ask _ _
          (λ _. Ends->>= (
            Ends-ask _ _
              (λ _.
                Ends-pure _
                  (record { no_objective = o; no_feedback = f; no_id = refl; whole = refl }))
              (λ _. (refl, (refl, (refl, (refl, tt)))))))
          (λ _. (refl, (refl, (refl, tt)))))

    solves :
        (send : Bool)
        → ObjectiveSaid true
        → Ends
            (λ c. c)
            (file_solution env input send)
            (λ r ks. IsFiled env input exit_kind send r (objective_asks env input exit_kind ∷ ks))
    unfolding file_solution
    solves send o = Ends->>= (
        Ends-ask _ _
          (λ _. Ends->>= (
            Ends-read _ λ h₁. Ends->>= (
              Ends-answer _ _
                (λ h₂ t said. Ends->>= (
                  Ends-ask _ _
                    (λ _. Ends->>= (
                      fired-Ends send _
                        (λ h. Ends-pure _ (record {
                          an_objective = o;
                          executions = env.executions h₁;
                          testcase = t;
                          appended = (h₂, said);
                          at = h;
                          no_id = refl;
                          whole =
                              rw
                                (append-nil
                                  (fired env input send (objective (env.solutions_count h))))
                                refl;
                        }))
                        (λ _ h. (refl, (refl, (tt, (tt, (tt, tt))))))))
                    (λ _. (refl, (refl, (tt, (tt, tt)))))))
                (λ _. (refl, (refl, (tt, tt)))))))
          (λ _. (refl, (refl, tt))))

    keeps :
        (send : Bool)
        → ObjectiveSaid false
        → FeedbackSaid true
        → Ends
            (λ c. c)
            (file_corpus env input exit_kind send)
            (λ r ks.
              IsFiled env input exit_kind send r
                (objective_asks env input exit_kind ∷ feedback_asks env input exit_kind ∷ ks))
    unfolding file_corpus
    keeps send o f = Ends->>= (
        Ends-ask _ _
          (λ _. Ends->>= (
            Ends-read _ λ h₁. Ends->>= (
              Ends-answer _ _
                (λ h₂ t said. Ends->>= (
                  Ends-answer _ _
                    (λ h₃ idx new. Ends->>= (
                      Ends-ask _ _
                        (λ _. Ends->>= (
                          Ends-answer _ _
                            (λ h₄ buf put. Ends->>= (
                              fired-Ends send _
                                (λ h. Ends-pure _ (record {
                                  no_objective = o;
                                  a_feedback = f;
                                  executions = env.executions h₁;
                                  testcase = t;
                                  appended = (h₂, said);
                                  idx = idx;
                                  is_id = refl;
                                  given = (h₃, new);
                                  buf = buf;
                                  serialized = (h₄, put);
                                  at = h;
                                  whole = rw (append-nil (fired env input send _)) refl;
                                }))
                                (λ _ h. (refl, (refl, (refl, (tt, (tt, (tt, (tt, (tt, tt)))))))))))
                            (λ _. (refl, (refl, (refl, (tt, (tt, (tt, (tt, tt))))))))))
                        (λ _. (refl, (refl, (refl, (tt, (tt, (tt, tt)))))))))
                    (λ _. (refl, (refl, (refl, (tt, (tt, tt))))))))
                (λ _. (refl, (refl, (refl, (tt, tt))))))))
          (λ _. (refl, (refl, (refl, tt)))))

    asks_feedback :
        (send b : Bool)
        → ObjectiveSaid false
        → FeedbackSaid b
        → Ends
            (λ c. c)
            (file env input exit_kind send (if b then corpus else ExecuteInputResult.none))
            (λ r ks.
              IsFiled env input exit_kind send r
                (objective_asks env input exit_kind ∷ feedback_asks env input exit_kind ∷ ks))
    asks_feedback send true o f = keeps send o f
    asks_feedback send false o f = forgets send o f

    pub process_execution-IsFiled :
        (send : Bool)
        → Ends
            (λ c. c)
            (process_execution env input exit_kind send)
            (IsFiled env input exit_kind send)
    unfolding process_execution rate
    process_execution-IsFiled send = Ends->>= (
        Ends->>= (
          Ends-answer _ _
            (λ h is_solution said.
              Ends-when is_solution
                (λ yes. Ends-pure _ (solves send (h, said ∙ ap (λ b. inr b) yes)))
                (λ no. Ends->>= (
                  Ends-answer _ _
                    (λ h' is_corpus said'.
                      Ends-pure _
                        (asks_feedback send is_corpus (h, said ∙ ap (λ b. inr b) no) (h', said')))
                    (λ _. (refl, (refl, tt))))))
            (λ _. (refl, tt))))

  evaluated :
      (exit_kind : L.ExitKind) (send : Bool)
      → (h : History L T) × (env.exit_kind h input ≡ inr exit_kind)
      → (r : Outcome LibaflError (ExecuteInputResult × Option ℕ)) (ks : List (Call L T))
      → IsFiled env input exit_kind send r ks
      → IsEvaluated env input send r (executed env input exit_kind ++ ks)
  evaluated exit_kind send ran (ok r) ks filed = (exit_kind, ks, ran, refl, filed)
  evaluated exit_kind send ran (err e) ks filed = (refl, (tt, (refl, (refl, filed))))
  evaluated exit_kind send ran panic ks filed = absurd filed

  -- The data of the calls of an evaluation.
  pub evaluate_input-IsEvaluated :
      (send : Bool) → Ends (λ c. c) (evaluate_input env input send) (IsEvaluated env input send)
  unfolding evaluate_input
  evaluate_input-IsEvaluated send = Ends->>= (
      executes (λ k ran. Ends-impl (process_execution-IsFiled k send) (evaluated k send ran))
        (λ e ks about. about))
