-- ===== src/Fuzzer/Evaluation.antt =====
-- nn_fuzz/src/components/fuzzer.rs: an input from its execution to its filing, and an input that is
-- added whatever the feedbacks say.
use nn_fuzz.Base.{
  IsPrefix, IsPrefix-append, ℕ, ◌≡◌, refl, ap, arith, ◌⊎◌, inl, inr, List, [], ◌∷◌, ◌++◌, Option,
  some, Bool, true, false, if◌then◌else◌,
}
use nn_fuzz.Base.Outcome.{Outcome, ok, err, panic}
use nn_fuzz.Messages.{Event}
use nn_fuzz.Base.Text.{Bytes}
use nn_fuzz.External.{Libafl, LibaflError}
use nn_fuzz.Fuzzer.{
  ExecuteInputResult, Testcases, Env, execute_input, evaluate_input, add_input, History, fire,
  serialize_observers, tell,
}
use nn_fuzz.Base.Program.{pure, ask, read, ◌>>=◌, ◌>>◌}
use nn_fuzz.Fuzzer.Calls.{
  Kind, pre_exec, bump, run, objective_discards, feedback_appends, adds_corpus, schedules,
  serializes, fires, kind,
}
use nn_fuzz.Base.Program.{Ends, Ends->>=, Ends-ask, Ends-impl, Ends-pure, Ends-read, Post}
use nn_fuzz.Fuzzer.Laws.{protocol, HasId, Early, Processed, Ends-tell, process_execution-Ends}

abbrev pub execution : List Kind
execution = pre_exec ∷ bump ∷ run ∷ Kind.post_exec ∷ []

-- An execution followed by the filing of its result, or a first part of that.
abbrev pub Evaluated : Bool → Post LibaflError Kind (ExecuteInputResult × Option ℕ)
Evaluated send (ok (res, idx)) ks = (ks ≡ execution ++ protocol res send) × HasId res idx
Evaluated send (err _) ks =
    IsPrefix ks execution ⊎ ((rest : List Kind) × (ks ≡ execution ++ rest) × Early send rest)
Evaluated send panic ks = ⊥

filed :
    (send : Bool) (r : Outcome LibaflError (ExecuteInputResult × Option ℕ)) (ks : List Kind)
    → Processed send r ks
    → Evaluated send r (execution ++ ks)
filed send (ok (res, idx)) ks (kept, id) = (ap (λ (l : List Kind). execution ++ l) kept, id)
filed send (err e) ks early = inr (ks, refl, early)
filed send panic ks none = none

-- The calls of an addition that succeeds, by whether the configuration is always unique.
abbrev pub addition : Bool → List Kind
addition is_unique =
    execution
    ++ objective_discards
      ∷ feedback_appends
      ∷ adds_corpus
      ∷ schedules
      ∷ (if is_unique then fires ∷ [] else serializes ∷ fires ∷ [])

abbrev pub Added : Bool → Post LibaflError Kind ℕ
Added is_unique (ok _) ks = ks ≡ addition is_unique
Added is_unique (err _) ks = IsPrefix ks (addition is_unique)
Added is_unique panic ks = ⊥

module _ {L : Libafl} {T : Testcases L} (env : Env L T) where
  execute_input-Ends :
      (input : L.Input) {Q : Post LibaflError Kind L.ExitKind}
      → ((k : L.ExitKind) → Q (ok k) execution)
      → ((e : LibaflError) (ks : List Kind) → IsPrefix ks execution → Q (err e) ks)
      → Ends kind (execute_input env input) Q
  unfolding execute_input
  execute_input-Ends input good bad = Ends->>= (
      Ends-tell env _
        (Ends->>= (
          Ends-tell env _
            (Ends->>= (
              Ends-ask _ _
                (λ k.
                  Ends->>= (Ends-tell env _ (Ends-pure _ (good k)) (λ e. bad e _ (ground arith))))
                (λ e. bad e _ (ground arith))))
            (λ e. bad e _ (ground arith))))
        (λ e. bad e _ (ground arith)))

  -- The order of the calls of an evaluation.
  pub evaluate_input-Ends :
      (input : L.Input) (send : Bool) → Ends kind (evaluate_input env input send) (Evaluated send)
  unfolding evaluate_input
  evaluate_input-Ends input send = Ends->>= (
      execute_input-Ends input
        (λ k. Ends-impl (process_execution-Ends env input k send) (filed send)) (λ e ks p. inl p))

  announce-Ends :
      (is_unique : Bool) (idx : ℕ) (event : Option Bytes → History L T → Event L)
      → Ends kind
          (do
            buf ←
                (if is_unique
                  then pure Option.none
                  else (do b ← ask serialize_observers env.observers_buf; pure (some b)))
            e ← read (event buf)
            tell env (fire e)
            pure idx)
          (λ r ks.
            Added is_unique r
              (execution ++ objective_discards ∷ feedback_appends ∷ adds_corpus ∷ schedules ∷ ks))
  announce-Ends true idx event = Ends->>= (
      Ends-pure _ (
        Ends->>=
          (Ends-read _ λ h. Ends->>= (Ends-tell env _ (Ends-pure _ refl) (λ _. ground arith)))))
  announce-Ends false idx event = Ends->>= (
      Ends->>= (
        Ends-ask _ _
          (λ b. Ends-pure _ (
            Ends->>=
              (Ends-read _ λ h. Ends->>= (Ends-tell env _ (Ends-pure _ refl) (λ _. ground arith)))))
          (λ _. ground arith)))

  -- The order of the calls of an addition.
  pub add_input-Ends :
      (input : L.Input)
      → Ends kind (add_input env input) (Added (L.is_always_unique env.configuration))
  unfolding add_input
  add_input-Ends input = Ends->>= (
      execute_input-Ends input
        (λ k. Ends->>= (
          Ends-tell env _
            (Ends->>= (
              Ends-read _ λ h. Ends->>= (
                Ends-ask _ _
                  (λ t. Ends->>= (
                    Ends-ask _ _
                      (λ idx. Ends->>= (Ends-tell env _ (announce-Ends _ _ _) (λ _. ground arith)))
                      (λ _. ground arith)))
                  (λ _. ground arith))))
            (λ _. ground arith)))
        (λ e ks p. IsPrefix-append ks execution _ p))
