-- ===== src/Setup/Reaching.antt =====
-- A client whose calls all go well gets through its set-up: nn_fuzz/src/fuzz/unix.rs.
use nn_fuzz.Base.{
  ℕ, ◌≡◌, refl, ap, inl, inr, List, [], ◌∷◌, ◌++◌, All, Option, none, some, ltb, not, ◌&&◌,
}
use nn_fuzz.Base.Text.{Bytes}
use nn_fuzz.Base.Outcome.{Outcome, ok, err, panic}
use nn_fuzz.Base.Program.{
  Post, Ends, Ends-pure, Ends-read, Ends-ask_answered, Ends-demand_known, Ends-note, Ends-attempt,
  Ends-if, Ends-maybe, Ends-impl, Ends->>=, Next, ◌>>=◌,
}
use nn_fuzz.Base.Histories.{EndsAt, EndsAt-lift, EndsAt-both, EndsAt-impl}
use nn_fuzz.External.{LibaflError}
use nn_fuzz.Args.{mutate_args}
use nn_fuzz.Options.{FuzzerOptions, client_seed}
use nn_fuzz.Setup.{
  Call, Client, Env, provide, open_state, load_tokens, harness_args, build_executor, fill_corpus,
  run_client, fuzzing, is_empty, tell, insist, settle, read_to_string,
}
use nn_fuzz.Setup.Laws.{IsBefore, Goal, IsRun, Fuzzed}
use nn_fuzz.Setup.Protocol.{Prepared, run_client-Ends}

abbrev Succeeds : {A : Type 0} → Post LibaflError Call A
Succeeds (ok _) ks = Unit
Succeeds (err _) ks = ⊥
Succeeds panic ks = ⊥

behind :
    {A : Type 0} (r : Outcome LibaflError A) (more ks : List Call)
    → Succeeds r more
    → Succeeds r (ks ++ more)
behind (ok a) more ks s = tt
behind (err e) more ks s = s
behind panic more ks s = s

-- The loop is among the calls.
abbrev Enters : Post LibaflError Call (Unit {0})
Enters r ks = ¬ All IsBefore ks

ahead : (ks more : List Call) → ¬ All IsBefore more → ¬ All IsBefore (ks ++ more)
ahead [] more enters all = enters all
ahead (c ∷ ks) more enters (_, all) = ahead ks more enters all

module _ {A : Type 0} where
  then_succeeds :
      {B : Type 0} {m : Client A} {f : A → Client B}
      → Ends (λ c. c) m Succeeds
      → ((a : A) → Ends (λ c. c) (f a) Succeeds)
      → Ends (λ c. c) (m >>= f) Succeeds
  then_succeeds {B} {m} {f} em next = Ends->>= (Ends-impl em step)
    where
      step :
          (r : Outcome LibaflError A) (ks : List Call)
          → Succeeds r ks
          → Next (λ c. c) f Succeeds r ks
      step (ok a) ks _ = Ends-impl (next a) (λ r more s. behind r more ks s)
      step (err e) ks s = s
      step panic ks s = s

  then_enters :
      {m : Client A} {f : A → Client (Unit {0})}
      → Ends (λ c. c) m Succeeds
      → ((a : A) → Ends (λ c. c) (f a) Enters)
      → Ends (λ c. c) (m >>= f) Enters
  then_enters {m} {f} em next = Ends->>= (Ends-impl em step)
    where
      step :
          (r : Outcome LibaflError A) (ks : List Call) → Succeeds r ks → Next (λ c. c) f Enters r ks
      step (ok a) ks _ = Ends-impl (next a) (λ _ more enters. ahead ks more enters)
      step (err e) ks s = absurd s
      step panic ks s = absurd s

module _ (env : Env) (options : FuzzerOptions)
    (done : (h : List Call) (c : Call) → env.done h c ≡ inr tt) where
  told : (c : Call) → Ends (λ c. c) (tell env options c) Succeeds
  told c = Ends-ask_answered c _ (λ h. (tt, done h c, tt))

  insisted : (c : Call) → Ends (λ c. c) (insist env options c) Succeeds
  insisted c = Ends-demand_known c _ tt (λ h. done h c) tt

  provide_succeeds : Ends (λ c. c) (provide env options) Succeeds
  unfolding provide
  provide_succeeds = then_succeeds (told _) λ _. then_succeeds (insisted _) λ _. insisted _

  settle_succeeds :
      {A B : Type 0} (r : Outcome LibaflError A) (a : A) {f : A → Client B}
      → r ≡ ok a
      → ((a : A) → Ends (λ c. c) (f a) Succeeds)
      → Ends (λ c. c) (settle r >>= f) Succeeds
  settle_succeeds (ok b) a same next = Ends->>= (Ends-pure b (next b))
  settle_succeeds (err e) a same next = cc
  settle_succeeds panic a same next = cc

  open_state_succeeds :
      {State : Type 0} (state : Option State) (core_id seed : ℕ)
      → client_seed options env.nanos core_id ≡ ok seed
      → Ends (λ c. c) (open_state env options state core_id) Succeeds
  unfolding open_state
  open_state_succeeds (some _) core_id seed drawn = Ends-pure tt tt
  open_state_succeeds none core_id seed drawn =
      settle_succeeds (client_seed options env.nanos core_id) seed drawn
        λ _. then_succeeds (insisted _) λ _. then_succeeds (insisted _) λ _. insisted _

  load_tokens_succeeds :
      (dicts : List Bytes)
      → ((h : List Call) → (n : ℕ) × (env.tokens h ≡ inr n))
      → Ends (λ c. c) (load_tokens env options dicts) Succeeds
  unfolding load_tokens
  load_tokens_succeeds dicts loaded = then_succeeds (Ends-read env.has_tokens (λ _. tt)) λ has.
      Ends-if (not has && not (is_empty dicts))
        (then_succeeds (Ends-ask_answered _ _ (λ h. let (n, answer) = loaded h in (n, answer, tt)))
          (λ _. then_succeeds (told _) λ _. Ends-note _ tt))
        (Ends-pure tt tt)

  harness_args_succeeds :
      (core_id : ℕ)
      → ((h : List Call)
          → (args : List Bytes) × (mutate_args env.parse_text env.checks core_id
                (env.config h)
                options.args
              ≡ (ok tt, args)))
      → Ends (λ c. c) (harness_args env options core_id) Succeeds
  unfolding harness_args
  harness_args_succeeds core_id mutated =
      Ends-maybe (options.core_args_config) (λ _. Ends-pure _ tt)
        (λ config _. Ends->>= (
          Ends-ask_answered _ _ (λ h.
            let (args, run) = mutated h in
            (
              env.config h,
              refl,
              Ends-impl
                  (settle_succeeds
                    (mutate_args env.parse_text env.checks core_id (env.config h) options.args).0 tt
                    (ap (λ x. x.0) run) (λ _. Ends-pure _ tt))
                  (λ r more s. behind r more (read_to_string config ∷ []) s),
            ))))

  build_executor_succeeds :
      (core_id : ℕ) (args : List Bytes)
      → Ends (λ c. c) (build_executor env options core_id args) Succeeds
  unfolding build_executor
  build_executor_succeeds core_id args = then_succeeds (insisted _) λ _. insisted _

  fill_corpus_succeeds : Ends (λ c. c) (fill_corpus env options) Succeeds
  unfolding fill_corpus
  fill_corpus_succeeds =
      then_succeeds (Ends-read env.corpus_count (λ _. tt))
        λ count. Ends-if (ltb count 1) (insisted _) (Ends-pure tt tt)

  entered :
      (G : Goal) (r : Outcome LibaflError (Unit {0})) (ks : List Call)
      → Fuzzed G r ks
      → ¬ All IsBefore ks
      → IsRun G r ks
  entered G (ok _) ks run enters = run
  entered G (err e) ks (inl before) enters = absurd (enters before)
  entered G (err e) ks (inr run) enters = run
  entered G panic ks (inl before) enters = absurd (enters before)
  entered G panic ks (inr run) enters = run

  module _ {State : Type 0} (start : List Call) (state : Option State) (core_id seed : ℕ) where
    enters :
        client_seed options env.nanos core_id ≡ ok seed
        → ((h : List Call) → (n : ℕ) × (env.tokens h ≡ inr n))
        → ((h : List Call)
            → (args : List Bytes) × (mutate_args env.parse_text env.checks core_id
                  (env.config h)
                  options.args
                ≡ (ok tt, args)))
        → Ends (λ c. c) (run_client env options state core_id) Enters
    unfolding run_client
    enters drawn loaded mutated = then_enters provide_succeeds λ _.
        then_enters (open_state_succeeds state core_id seed drawn) λ _.
          then_enters (load_tokens_succeeds options.tokens loaded) λ _.
            then_enters (harness_args_succeeds core_id mutated) λ args.
              then_enters (build_executor_succeeds core_id args) λ _.
                then_enters fill_corpus_succeeds
                  λ _. Ends-attempt fuzzing env.fuzzed (λ _ (all, _). all)

    -- Where no call but the fuzzing loop is answered with an error, the core has a seed, and the
    -- arguments can be mutated by whatever file is read, a client gets through: whatever else is
    -- answered, however the loop ends and whatever was called before, it makes the whole set-up,
    -- enters the loop once, last and behind all of it, and ends as the loop does.
    pub run_client_enters :
        client_seed options env.nanos core_id ≡ ok seed
        → ((h : List Call) → (n : ℕ) × (env.tokens h ≡ inr n))
        → ((h : List Call)
            → (args : List Bytes) × (mutate_args env.parse_text env.checks core_id
                  (env.config h)
                  options.args
                ≡ (ok tt, args)))
        → EndsAt start
            (run_client env options state core_id)
            (IsRun (Prepared env options start state core_id))
    run_client_enters drawn loaded mutated =
        EndsAt-impl
          (EndsAt-both (run_client-Ends env options start state core_id)
            (EndsAt-lift (enters drawn loaded mutated) start))
          (λ r ks (run, in_loop).
            entered (Prepared env options start state core_id) r ks run in_loop)
