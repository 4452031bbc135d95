-- ===== src/Fuzzer/Laws.antt =====
-- What `HeavyFuzzer` calls, in which order and on which outcome, and how it files an input.
use nn_fuzz.Base.{
  IsPrefix, ℕ, ◌≡◌, refl, ◌⊎◌, inl, inr, List, [], ◌∷◌, append-nil, Option, some, Bool, true, false,
  arith, if◌then◌else◌,
}
use nn_fuzz.Base.Outcome.{ok, err, panic}
use nn_fuzz.External.{Libafl, LibaflError}
use nn_fuzz.Messages.{Event}
use nn_fuzz.Fuzzer.{
  ExecuteInputResult, corpus, solution, Testcases, Call, fire, History, Env, tell, fire_if, rate,
  file, file_none, file_solution, file_corpus, process_execution,
}
use nn_fuzz.Fuzzer.Calls.{
  Kind, objective_asks, feedback_asks, objective_discards, feedback_discards, objective_appends,
  feedback_appends, adds_solution, adds_corpus, schedules, serializes, fires, kind,
}
use nn_fuzz.Base.Program.{Ends, Ends->>=, Ends-ask, Ends-if, Ends-pure, Ends-read, Post}

abbrev fires_if : Bool → List Kind
fires_if true = fires ∷ []
fires_if false = []

-- The protocol of `process_execution`: the calls of a run that succeeds, by its result.
abbrev pub protocol : ExecuteInputResult → Bool → List Kind
protocol ExecuteInputResult.none send =
    objective_asks ∷ feedback_asks ∷ feedback_discards ∷ objective_discards ∷ []
protocol solution send =
    objective_asks ∷ feedback_discards ∷ objective_appends ∷ adds_solution ∷ fires_if send
protocol corpus send =
    objective_asks
    ∷ feedback_asks
    ∷ objective_discards
    ∷ feedback_appends
    ∷ adds_corpus
    ∷ schedules
    ∷ serializes
    ∷ fires_if send

-- An identifier comes with a test case of the corpus, and only with one.
abbrev pub HasId : ExecuteInputResult → Option ℕ → Type 0
HasId corpus (some _) = Unit
HasId corpus Option.none = ⊥
HasId _ (some _) = ⊥
HasId _ Option.none = Unit

-- A first part of one of the three.
abbrev pub Early : Bool → List Kind → Type 0
Early send ks =
    IsPrefix ks (protocol ExecuteInputResult.none send)
    ⊎ IsPrefix ks (protocol solution send)
    ⊎ IsPrefix ks (protocol corpus send)

-- A run that succeeds has kept the whole protocol of its result. One that fails has kept a first part
-- of one of the three. None panics.
abbrev pub Processed : Bool → Post LibaflError Kind (ExecuteInputResult × Option ℕ)
Processed send (ok (res, idx)) ks = (ks ≡ protocol res send) × HasId res idx
Processed send (err _) ks = Early send ks
Processed send panic ks = ⊥

late : (send : Bool) → send ≡ true → IsPrefix (fires ∷ []) (fires_if send)
late true _ = (refl, tt)
late false e = cc

module _ {L : Libafl} {T : Testcases L} (env : Env L T) where
  pub Ends-tell :
      (c : Call L T) {Q : Post LibaflError Kind (Unit {0})}
      → Q (ok tt) (kind c ∷ [])
      → ((e : LibaflError) → Q (err e) (kind c ∷ []))
      → Ends kind (tell env c) Q
  Ends-tell c good bad = Ends-ask c _ (λ _. good) bad

  Ends-fire_if :
      (send : Bool) (event : History L T → Event L) {Q : Post LibaflError Kind (Unit {0})}
      → Q (ok tt) (fires_if send)
      → ((e : LibaflError) → send ≡ true → Q (err e) (fires ∷ []))
      → Ends kind (fire_if env send event) Q
  Ends-fire_if true event good bad =
      Ends->>= (Ends-read event (λ h. Ends-tell (fire (event h)) good (λ e. bad e refl)))
  Ends-fire_if false event good bad = Ends-pure tt good

  file_none-Ends :
      (input : L.Input) (send : Bool)
      → Ends kind
          (file_none env input)
          (λ r ks. Processed send r (objective_asks ∷ feedback_asks ∷ ks))
  unfolding file_none
  file_none-Ends input send = Ends->>= (
      Ends-tell _ (Ends->>= (Ends-tell _ (Ends-pure _ (refl, tt)) (λ _. inl (ground arith))))
        (λ _. inl (ground arith)))

  file_solution-Ends :
      (input : L.Input) (send : Bool)
      → Ends kind (file_solution env input send) (λ r ks. Processed send r (objective_asks ∷ ks))
  unfolding file_solution
  file_solution-Ends input send = Ends->>= (
      Ends-tell _
        (Ends->>= (
          Ends-read _ λ h. Ends->>= (
            Ends-ask _ _
              (λ t. Ends->>= (
                Ends-tell _
                  (Ends->>= (
                    Ends-fire_if send _ (Ends-pure _ (rw (append-nil (fires_if send)), tt))
                      (λ _ sends. inr (inl (refl, (refl, (refl, (refl, late send sends))))))))
                  (λ _. inr (inl (ground arith)))))
              (λ _. inr (inl (ground arith))))))
        (λ _. inr (inl (ground arith))))

  file_corpus-Ends :
      (input : L.Input) (exit_kind : L.ExitKind) (send : Bool)
      → Ends kind
          (file_corpus env input exit_kind send)
          (λ r ks. Processed send r (objective_asks ∷ feedback_asks ∷ ks))
  unfolding file_corpus
  file_corpus-Ends input exit_kind send = Ends->>= (
      Ends-tell _
        (Ends->>= (
          Ends-read _ λ h. Ends->>= (
            Ends-ask _ _
              (λ t. Ends->>= (
                Ends-ask _ _
                  (λ idx. Ends->>= (
                    Ends-tell _
                      (Ends->>= (
                        Ends-ask _ _
                          (λ buf. Ends->>= (
                            Ends-fire_if send _ (Ends-pure _ (rw (append-nil (fires_if send)), tt))
                              (λ _ sends. inr (
                                inr (
                                  refl,
                                  (refl, (refl, (refl, (refl, (refl, (refl, late send sends)))))),
                                )))))
                          (λ _. inr (inr (ground arith)))))
                      (λ _. inr (inr (ground arith)))))
                  (λ _. inr (inr (ground arith)))))
              (λ _. inr (inr (ground arith))))))
        (λ _. inr (inr (ground arith))))

  asked-Ends :
      (input : L.Input) (exit_kind : L.ExitKind) (send is_corpus : Bool)
      → Ends kind
          (file env input exit_kind send (if is_corpus then corpus else ExecuteInputResult.none))
          (λ r ks. Processed send r (objective_asks ∷ feedback_asks ∷ ks))
  asked-Ends input exit_kind send true = file_corpus-Ends input exit_kind send
  asked-Ends input exit_kind send false = file_none-Ends input send

  -- For every environment: when `process_execution` succeeds, the calls it has made are, in order, the
  -- protocol of the result it returns, and there is an identifier if and only if the result is
  -- `corpus`; when it fails, they are a first part of one of the three protocols; it never panics.
  pub process_execution-Ends :
      (input : L.Input) (exit_kind : L.ExitKind) (send : Bool)
      → Ends kind (process_execution env input exit_kind send) (Processed send)
  unfolding process_execution rate
  process_execution-Ends input exit_kind send = Ends->>= (
      Ends->>= (
        Ends-ask _ _
          (λ is_solution. Ends-if is_solution (Ends-pure _ (file_solution-Ends input send)) (
            Ends->>= (
              Ends-ask _ _ (λ is_corpus. Ends-pure _ (asked-Ends input exit_kind send is_corpus))
                (λ _. inl (ground arith)))))
          (λ _. inl (ground arith))))
