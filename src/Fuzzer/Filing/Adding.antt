-- ===== src/Fuzzer/Filing/Adding.antt =====
-- nn_fuzz/src/components/fuzzer.rs: what becomes of an input that is added whatever the feedbacks say.
use nn_fuzz.Base.{
  ℕ, ◌≡◌, refl, inr, List, [], ◌∷◌, ◌++◌, All, All-append, Option, some, Bool, true, false,
}
use nn_fuzz.Base.Text.{Bytes}
use nn_fuzz.Base.Outcome.{ok, err, panic}
use nn_fuzz.Base.Program.{
  Program, Ends, Ends->>=, Ends-ask, Ends-answer, Ends-pure, Ends-read, Ends-when, Post, ◌>>=◌,
  ◌>>◌, read, pure,
}
use nn_fuzz.External.{Libafl, LibaflError}
use nn_fuzz.Messages.{new_testcase}
use nn_fuzz.Fuzzer.{
  Testcases, Call, Env, History, objective_discard_metadata, feedback_append_metadata, corpus_add,
  on_add, serialize_observers, fire, tell, add_input,
}
use nn_fuzz.Fuzzer.Filing.{IsAbout, Appended, executed}
use nn_fuzz.Fuzzer.Filing.Laws.{executes}

module _ {L : Libafl} {T : Testcases L} (env : Env L T) (input : L.Input) where
  -- The observers that the event carries, and the calls that get them.
  abbrev pub Shared : Bool → Option Bytes → List (Call L T) → Type 0
  Shared true buf ks = (buf ≡ Option.none) × (ks ≡ [])
  Shared false buf ks =
      (b : Bytes) × (buf ≡ some b)
      × ((h : History L T) × (env.observers_buf h ≡ inr b))
      × (ks ≡ serialize_observers ∷ [])

  pub record IsAdded (id : ℕ) (ks : List (Call L T)) : Type 0 where
    pub exit_kind : L.ExitKind
    pub ran : (h : History L T) × (env.exit_kind h input ≡ inr exit_kind)
    pub executions : ℕ
    pub testcase : T.Testcase
    pub appended : Appended env input executions testcase
    pub given : (h : History L T) × (env.new_id h testcase ≡ inr id)
    pub buf : Option Bytes
    pub sharing : List (Call L T)
    pub shared : Shared (L.is_always_unique env.configuration) buf sharing
    pub at : History L T
    pub whole :
        ks
        ≡ executed env input exit_kind
          ++ objective_discard_metadata input
            ∷ feedback_append_metadata (T.with_executions input executions)
            ∷ corpus_add testcase
            ∷ on_add id
            ∷ (sharing
                ++ fire (
                    new_testcase input buf exit_kind
                      (env.corpus_count at)
                      env.configuration
                      (env.current_time at)
                      (env.executions at))
                  ∷ [])

  abbrev pub Adding : Post LibaflError (Call L T) ℕ
  Adding (ok id) ks = IsAdded id ks
  Adding (err _) ks = All (IsAbout env input) ks
  Adding panic ks = ⊥

  module _ (exit_kind : L.ExitKind) (executions : ℕ) (testcase : T.Testcase) (id : ℕ) where
    abbrev announcing : Option Bytes → Program (Call L T) LibaflError ℕ
    announcing buf =
        read (λ h.
          new_testcase input buf exit_kind (env.corpus_count h) env.configuration
            (env.current_time h) (env.executions h))
        >>= λ event. tell env (fire event) >> pure id

    announces :
        (ran : (h : History L T) × (env.exit_kind h input ≡ inr exit_kind))
        → Appended env input executions testcase
        → (h : History L T) × (env.new_id h testcase ≡ inr id)
        → (buf : Option Bytes) (sharing : List (Call L T))
        → Shared (L.is_always_unique env.configuration) buf sharing
        → All (IsAbout env input) sharing
        → Ends
            (λ c. c)
            (announcing buf)
            (λ r ks. Adding r (
              executed env input exit_kind
              ++ objective_discard_metadata input
                ∷ feedback_append_metadata (T.with_executions input executions)
                ∷ corpus_add testcase
                ∷ on_add id
                ∷ (sharing ++ ks)))
    announces ran appended given buf sharing shared about = Ends->>= (
        Ends-read _ λ h. Ends->>= (
          Ends-ask _ _
            (λ _. Ends-pure id (record {
              exit_kind = exit_kind;
              ran = ran;
              executions = executions;
              testcase = testcase;
              appended = appended;
              given = given;
              buf = buf;
              sharing = sharing;
              shared = shared;
              at = h;
              whole = refl;
            }))
            (λ _. (
              refl,
              (
                tt,
                (
                  refl,
                  (
                    refl,
                    (
                      refl,
                      (tt, (tt, (tt, All-append (IsAbout env input) sharing _ about (tt, tt)))),
                    ),
                  ),
                ),
              ),
            ))))

  -- The data of the calls of an addition.
  pub add_input-Adding : Ends (λ c. c) (add_input env input) Adding
  unfolding add_input
  add_input-Adding = Ends->>= (
      executes env input
        (λ k ran. Ends->>= (
          Ends-ask _ _
            (λ _. Ends->>= (
              Ends-read _ λ h₁. Ends->>= (
                Ends-answer _ _
                  (λ h₂ t said. Ends->>= (
                    Ends-answer _ _
                      (λ h₃ id new. Ends->>= (
                        Ends-ask _ _
                          (λ _. Ends->>= (
                            Ends-when (L.is_always_unique env.configuration)
                              (λ yes. Ends-pure _ (
                                announces k (env.executions h₁) t id ran (h₂, said) (h₃, new)
                                  Option.none [] (rw yes (refl, refl)) tt))
                              (λ no. Ends->>= (
                                Ends-answer _ _
                                  (λ h₄ b put. Ends-pure _ (
                                    announces k (env.executions h₁) t id ran (h₂, said) (h₃, new)
                                      (some b) (serialize_observers ∷ [])
                                      (rw no (b, refl, (h₄, put), refl)) (tt, tt)))
                                  (λ _. (
                                    refl,
                                    (tt, (refl, (refl, (refl, (tt, (tt, (tt, (tt, tt)))))))),
                                  ))))))
                          (λ _. (refl, (tt, (refl, (refl, (refl, (tt, (tt, (tt, tt)))))))))))
                      (λ _. (refl, (tt, (refl, (refl, (refl, (tt, (tt, tt))))))))))
                  (λ _. (refl, (tt, (refl, (refl, (refl, (tt, tt))))))))))
            (λ _. (refl, (tt, (refl, (refl, (refl, tt))))))))
        (λ e ks about. about))
