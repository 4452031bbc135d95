-- ===== src/Setup/Protocol.antt =====
-- What a client sets up before it fuzzes, on every outcome.
use nn_fuzz.Base.{
  ℕ, ◌≡◌, refl, ap, ◌⊎◌, inl, inr, List, [], ◌∷◌, ◌++◌, append-nil, Option, none, some, arith, ltb,
  not, ◌&&◌, Bool, true, false, ◌≢◌, ◌<◌, sym,
}
use nn_fuzz.Base.Text.{Bytes, codes}
use nn_fuzz.Base.Outcome.{Outcome, ok, err, panic}
use nn_fuzz.Base.Program.{
  Post, Ends, Ends-pure, Ends-throw, Ends-die, Ends-ask, Ends-demand, Ends-note, Ends-when,
  Ends->>=, ◌>>=◌, attempt,
}
use nn_fuzz.Base.Histories.{
  EndsAt, EndsAt-lift, EndsAt-ask, EndsAt-attempt, EndsAt-read, EndsAt-when, EndsAt-maybe,
  EndsAt->>=,
}
use nn_fuzz.External.{LibaflError}
use nn_fuzz.Args.{mutate_args}
use nn_fuzz.Options.{FuzzerOptions, client_seed}
use nn_fuzz.Server.Service.{map_size}
use nn_fuzz.Setup.{
  Call, new_shmem_provider, new_shmem, write_to_env, open_queue, open_output, new_state,
  add_from_files, fire_loaded, add_metadata, read_to_string, new_timeout_executor,
  load_initial_inputs, generate_initial_inputs, fuzzing, feedback, objective, forkserver, Env,
  Client, settle, provide, open_state, load_tokens, harness_args, build_executor, fill, fill_corpus,
  run_client, is_empty,
}
use nn_fuzz.Setup.Laws.{IsBefore, Part, Goal, Fuzzed, Fuzzed-entered, after, then-EndsAt}

module _ (env : Env) (options : FuzzerOptions) where
  abbrev providing : List Call
  providing = new_shmem_provider ∷ new_shmem map_size ∷ write_to_env (codes "__AFL_SHM_ID") ∷ []

  -- A restored state is kept; a new one has the client's seed, the queue and the output directory.
  abbrev pub IsOpening : {State : Type 0} → Option State → ℕ → List Call → Type 0
  IsOpening (some _) core_id ks = ks ≡ []
  IsOpening none core_id ks =
      (seed : ℕ) × (client_seed options env.nanos core_id ≡ ok seed)
      × (ks
          ≡ open_queue options.queue 64
            ∷ open_output options.output
            ∷ new_state seed feedback objective
            ∷ [])

  -- Tokens are there, or no file names any: nothing is done. Else they are loaded from all the files,
  -- told and added.
  abbrev pub IsTokens : List Call → List Bytes → List Call → Type 0
  IsTokens h dicts ks =
      (((env.has_tokens h ≡ true) ⊎ (dicts ≡ [])) × (ks ≡ []))
      ⊎ ((env.has_tokens h ≡ false)
          × (dicts ≢ [])
          × ((n : ℕ) × (env.tokens h ≡ inr n)
              × (ks ≡ add_from_files dicts ∷ fire_loaded n dicts ∷ add_metadata n ∷ [])))

  -- The arguments are those of the options, or what `mutate_args` makes of them by the file.
  abbrev pub IsArgs : List Call → Option Bytes → ℕ → List Bytes → List Call → Type 0
  IsArgs h none core_id args ks = (args ≡ options.args) × (ks ≡ [])
  IsArgs h (some config) core_id args ks =
      (ks ≡ read_to_string config ∷ [])
      × (mutate_args env.parse_text env.checks core_id (env.config h) options.args ≡ (ok tt, args))

  abbrev executing : ℕ → List Bytes → List Call
  executing core_id args =
      forkserver env options core_id args ∷ new_timeout_executor options.timeout ∷ []

  -- The corpus is filled exactly if it is empty.
  abbrev pub IsFilling : List Call → List Call → Type 0
  IsFilling h ks =
      ((0 < env.corpus_count h) × (ks ≡ []))
      ⊎ ((env.corpus_count h ≡ 0) × (ks ≡ fill env options ∷ []))

  -- The set-up of a client behind the calls of `start`, part by part, each by what is answered at its
  -- place; and the fuzzing loop behind it ends with `r`.
  pub record Prepared {State : Type 0} (start : List Call) (state : Option State) (core_id : ℕ)
      (r : Outcome LibaflError (Unit {0})) (ks : List Call) : Type 0 where
    pub sharing : List Call
    pub is_sharing : sharing ≡ providing
    pub opening : List Call
    pub is_opening : IsOpening state core_id opening
    pub tokens : List Call
    pub is_tokens : IsTokens ((start ++ sharing) ++ opening) options.tokens tokens
    pub args : List Bytes
    pub config : List Call
    pub is_args :
        IsArgs
          (((start ++ sharing) ++ opening) ++ tokens)
          options.core_args_config
          core_id
          args
          config
    pub executor : List Call
    pub is_executor : executor ≡ executing core_id args
    pub filling : List Call
    pub is_filling :
        IsFilling (((((start ++ sharing) ++ opening) ++ tokens) ++ config) ++ executor) filling
    pub whole : ks ≡ sharing ++ (opening ++ (tokens ++ (config ++ (executor ++ filling))))
    pub looped :
        env.fuzzed
          ((((((start ++ sharing) ++ opening) ++ tokens) ++ config) ++ executor) ++ filling)
        ≡ r

  provide-Ends : Ends (λ c. c) (provide env options) (Part (λ _ ks. ks ≡ providing))
  unfolding provide
  provide-Ends = Ends->>= (
      Ends-ask _ _
        (λ _. Ends->>= (
          Ends-demand _ _ (λ _. Ends-demand _ _ (λ _. (ground arith, refl)) (ground arith))
            (ground arith)))
        (λ _. ground arith))

  settle-Ends :
      {A B : Type 0} (r : Outcome LibaflError A) {f : A → Client B} {Q : Post LibaflError Call B}
      → ((a : A) → r ≡ ok a → Ends (λ c. c) (f a) Q)
      → ((e : LibaflError) → r ≡ err e → Q (err e) [])
      → (r ≡ panic → Q panic [])
      → Ends (λ c. c) (settle r >>= f) Q
  settle-Ends (ok a) good bad worst = Ends->>= (Ends-pure a (good a refl))
  settle-Ends (err e) good bad worst = Ends->>= (Ends-throw e (bad e refl))
  settle-Ends panic good bad worst = Ends->>= (Ends-die (worst refl))

  open_state-Ends :
      {State : Type 0} (state : Option State) (core_id : ℕ)
      → Ends (λ c. c) (open_state env options state core_id) (Part (λ _. IsOpening state core_id))
  unfolding open_state
  open_state-Ends (some _) core_id = Ends-pure tt (tt, refl)
  open_state-Ends none core_id =
      settle-Ends (client_seed options env.nanos core_id)
        (λ seed e. Ends->>= (
          Ends-demand _ _
            (λ _. Ends->>= (
              Ends-demand _ _
                (λ _. Ends-demand _ _ (λ _. (ground arith, (seed, e, refl))) (ground arith))
                (ground arith)))
            (ground arith)))
        (λ _ _. tt) (λ _. tt)

  wants_tokens :
      (has : Bool) (dicts : List Bytes)
      → not has && not (is_empty dicts) ≡ true
      → (has ≡ false) × (dicts ≢ [])
  wants_tokens false (d ∷ dicts) wanted = (refl, λ e. cc)
  wants_tokens false [] wanted = cc
  wants_tokens true dicts wanted = cc

  no_tokens :
      (has : Bool) (dicts : List Bytes)
      → not has && not (is_empty dicts) ≡ false
      → (has ≡ true) ⊎ (dicts ≡ [])
  no_tokens true dicts idle = inl refl
  no_tokens false [] idle = inr refl
  no_tokens false (d ∷ dicts) idle = cc

  load_tokens-EndsAt :
      (h : List Call) (dicts : List Bytes)
      → EndsAt h (load_tokens env options dicts) (Part (λ _. IsTokens h dicts))
  unfolding load_tokens
  load_tokens-EndsAt h dicts = EndsAt-read h env.has_tokens _ (
      EndsAt-when (not (env.has_tokens h) && not (is_empty dicts))
        (λ wanted.
          let (missing, files) = wants_tokens (env.has_tokens h) dicts wanted in
          EndsAt->>= (
            EndsAt-ask h _ _
              (λ n answer.
                EndsAt-lift
                  (Ends->>= (
                    Ends-ask _ _
                      (λ _.
                        Ends-note _ ((tt, (tt, (tt, tt))), inr (missing, files, (n, answer, refl))))
                      (λ _. (tt, (tt, tt)))))
                  _)
              (λ _ _. (tt, tt))))
        (λ idle.
          EndsAt-lift (Ends-pure tt (tt, inl (no_tokens (env.has_tokens h) dicts idle, refl))) h))

  harness_args-EndsAt :
      (h : List Call) (core_id : ℕ)
      → EndsAt h
          (harness_args env options core_id)
          (Part (IsArgs h options.core_args_config core_id))
  unfolding harness_args
  harness_args-EndsAt h core_id =
      EndsAt-maybe (options.core_args_config)
        (λ e. EndsAt-lift (Ends-pure _ (tt, rw e (refl, refl))) h)
        (λ config e. EndsAt->>= (
          EndsAt-ask h _ _
            (λ answer same.
              let mutated = mutate_args env.parse_text env.checks core_id answer options.args in
              let known : answer ≡ env.config h = ground arith in
              EndsAt-lift
                (settle-Ends mutated.0
                  (λ _ r.
                    Ends-pure _
                      ((tt, tt), rw e (refl, rw (sym known) (ap (λ x. (x, mutated.1)) r))))
                  (λ _ _. (tt, tt)) (λ _. (tt, tt)))
                _)
            (λ _ _. (tt, tt))))

  build_executor-Ends :
      (core_id : ℕ) (args : List Bytes)
      → Ends
          (λ c. c)
          (build_executor env options core_id args)
          (Part (λ _ ks. ks ≡ executing core_id args))
  unfolding build_executor
  build_executor-Ends core_id args = Ends->>= (
      Ends-demand _ _ (λ _. Ends-demand _ _ (λ _. (ground arith, refl)) (ground arith))
        (ground arith))

  fill-IsBefore : IsBefore (fill env options)
  fill-IsBefore = go options.input
    where
      go :
          (o : Option (List Bytes))
          → IsBefore (elim o [
            | some inputs ↦ load_initial_inputs inputs
            | none ↦ generate_initial_inputs options.input_max_length options.generate_count
          ])
      go none = tt
      go (some i) = tt

  fill_corpus-EndsAt :
      (h : List Call) → EndsAt h (fill_corpus env options) (Part (λ _. IsFilling h))
  unfolding fill_corpus
  fill_corpus-EndsAt h = EndsAt-read h env.corpus_count _ (
      EndsAt-lift
        (Ends-when (ltb (env.corpus_count h) 1)
          (λ e.
            Ends-demand _ _ (λ _. ((fill-IsBefore, tt), inr (ground (arith, e), refl)))
              (fill-IsBefore, tt))
          (λ e. Ends-pure tt (tt, inl (ground (arith, e), refl))))
        h)

  module _ {State : Type 0} (start : List Call) (state : Option State) (core_id : ℕ) where
    -- The parts of the set-up in their order are a set-up, and the loop is entered behind it.
    assemble :
        (p o t : List Call) (args : List Bytes) (c x f : List Call)
        → p ≡ providing
        → IsOpening state core_id o
        → IsTokens ((start ++ p) ++ o) options.tokens t
        → IsArgs (((start ++ p) ++ o) ++ t) options.core_args_config core_id args c
        → x ≡ executing core_id args
        → IsFilling (((((start ++ p) ++ o) ++ t) ++ c) ++ x) f
        → Prepared start state core_id
            (env.fuzzed ((((((start ++ p) ++ o) ++ t) ++ c) ++ x) ++ f))
            (p ++ (o ++ (t ++ (c ++ (x ++ (f ++ []))))))
    assemble p o t args c x f hp ho ht hc hx hf = record {
      sharing = p;
      is_sharing = hp;
      opening = o;
      is_opening = ho;
      tokens = t;
      is_tokens = ht;
      args = args;
      config = c;
      is_args = hc;
      executor = x;
      is_executor = hx;
      filling = f;
      is_filling = hf;
      whole = rw (append-nil f) refl;
      looped = refl;
    }

    looping :
        (h : List Call) (G : Goal)
        → G (env.fuzzed h) []
        → EndsAt h (attempt fuzzing env.fuzzed) (Fuzzed G)
    looping h G g = EndsAt-attempt h fuzzing env.fuzzed (Fuzzed-entered G (env.fuzzed h) g)

    -- Whatever LibAFL and the operating system answer: a client that succeeds has made the whole set-up
    -- in its order, and behind it entered the fuzzing loop once; one that fails or panics has made calls
    -- before the loop only, or the whole set-up and entered the loop; whoever has entered the loop ends
    -- as it does. The set-up shares the map; opens the state with the seed of this core unless one was
    -- restored; loads the tokens exactly if there are none yet and the options name files; takes the
    -- arguments of the options, or what `mutate_args` makes of them for this core by the file that is
    -- read; builds the executor on this core with them; and fills the corpus exactly if it is empty.
    pub run_client-Ends :
        EndsAt start (run_client env options state core_id) (Fuzzed (Prepared start state core_id))
    unfolding run_client
    run_client-Ends =
        let G = Prepared start state core_id in
        then-EndsAt start (λ _ ks. ks ≡ providing) G (EndsAt-lift provide-Ends start)
          λ _ p hp.
            let Gp = after p G in
            then-EndsAt (start ++ p) (λ _. IsOpening state core_id) Gp
              (EndsAt-lift (open_state-Ends state core_id) (start ++ p))
              λ _ o ho.
                let Go = after o Gp in
                then-EndsAt _ _ Go (load_tokens-EndsAt ((start ++ p) ++ o) options.tokens) λ _ t ht.
                  let Gt = after t Go in
                  then-EndsAt _ _ Gt (harness_args-EndsAt (((start ++ p) ++ o) ++ t) core_id)
                    λ args c hc.
                      let Gc = after c Gt in
                      then-EndsAt _ (λ _ ks. ks ≡ executing core_id args) Gc
                        (EndsAt-lift (build_executor-Ends core_id args) _)
                        λ _ x hx.
                          let Gx = after x Gc in
                          then-EndsAt _ _ Gx (fill_corpus-EndsAt _) λ _ f hf.
                            looping _ (after f Gx) (assemble p o t args c x f hp ho ht hc hx hf)
