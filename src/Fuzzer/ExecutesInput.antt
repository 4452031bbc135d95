-- ===== src/Fuzzer/ExecutesInput.antt =====
-- nn_fuzz/src/components/fuzzer.rs: `ExecutesInput::execute_input`, the copy of
-- `HeavyFuzzer::execute_input` that stages call.
use nn_fuzz.Base.Program.{ask, pure, ◌>>=◌, ◌>>◌}
use nn_fuzz.External.{Libafl}
use nn_fuzz.Fuzzer.{
  Testcases, pre_exec_all, add_execution, run_target, post_exec_all, Env, Fuzz, tell,
}

unfoldable pub execute_input :
    {L : Libafl} {T : Testcases L} (env : Env L T) → L.Input → Fuzz L T L.ExitKind
execute_input env input = do
  tell env (pre_exec_all input)
  tell env add_execution
  exit_kind ← ask (run_target input) (λ h. env.exit_kind h input)
  tell env (post_exec_all input exit_kind)
  pure exit_kind
