-- ===== src/Fuzzer/Filing/Whole.antt =====
-- `HeavyFuzzer` on an input, on every outcome: the order of the calls and their data together.
use nn_fuzz.Base.{Bool}
use nn_fuzz.Base.Program.{Ends, Ends-both, kinds}
use nn_fuzz.External.{Libafl}
use nn_fuzz.Fuzzer.{Testcases, Env, evaluate_input, add_input}
use nn_fuzz.Fuzzer.Calls.{kind}
use nn_fuzz.Fuzzer.Evaluation.{Evaluated, Added, evaluate_input-Ends, add_input-Ends}
use nn_fuzz.Fuzzer.Filing.{IsEvaluated}
use nn_fuzz.Fuzzer.Filing.Laws.{evaluate_input-IsEvaluated}
use nn_fuzz.Fuzzer.Filing.Adding.{Adding, add_input-Adding}

module _ {L : Libafl} {T : Testcases L} (env : Env L T) (input : L.Input) where
  -- Whatever the environment answers: when evaluating an input succeeds, the target has run on it once,
  -- and the input was shown with that run's exit kind to the objective and, if the objective did not
  -- claim it, to the feedback. If neither claimed it, the metadata of both is discarded and there is no
  -- identifier. If the objective did, the input is added to the solutions with the metadata appended,
  -- and there is no identifier. If the feedback did, it is added to the corpus with the metadata
  -- appended, the scheduler is told the identifier that the corpus gave, which is returned, and the
  -- observers are serialized. Behind these two comes, if events are wanted, the event of an objective,
  -- or of a new test case with this input, these observers and this exit kind. No other call is made.
  -- When it fails, the calls made are a first part of those of some result, in their order, and every
  -- one that names an input names this one; it never panics.
  pub evaluate_input_files :
      (send : Bool)
      → Ends
          (λ c. c)
          (evaluate_input env input send)
          (λ r ks. IsEvaluated env input send r ks × Evaluated send r (kinds kind ks))
  evaluate_input_files send =
      Ends-both (evaluate_input-IsEvaluated env input send) (evaluate_input-Ends env input send)

  -- Whatever the environment answers: when adding an input succeeds, the target has run on it once, and
  -- with no feedback or objective asked for its opinion, the objective's metadata is discarded, the
  -- feedback's is appended to the test case, which is added to the corpus; the scheduler is told the
  -- identifier that the corpus gave, which is returned; and an event of a new test case is fired, with
  -- this input, that run's exit kind, and the observers, which are serialized for it, unless the
  -- configuration is always unique. No other call is made. When it fails, the calls made are a first
  -- part of these, in their order, and every one that names an input names this one; it never panics.
  pub add_input_files :
      Ends
        (λ c. c)
        (add_input env input)
        (λ r ks.
          Adding env input r ks × Added (L.is_always_unique env.configuration) r (kinds kind ks))
  add_input_files = Ends-both (add_input-Adding env input) (add_input-Ends env input)
