-- ===== src/Stage/Campaign.antt =====
-- `CustomMutationalStage` from the first start of its process on, through any number of runs and of
-- restarts. The stage is made anew at each start, by nn_fuzz/src/fuzz/unix.rs, while the depths stay
-- with the test cases in the state.
use nn_fuzz.Base.{ℕ, ◌+◌, ◌<◌, ◌≡◌, refl, inl, [], some, Bool, arith, length}
use mathlib.Core.Path.{subst}
use nn_fuzz.Base.Outcome.{Outcome, ok}
use nn_fuzz.External.{Libafl, LibaflError}
use nn_fuzz.Fuzzer.{Testcases, History, Env}
use nn_fuzz.Std.Decimal.{u64_mod}
use nn_fuzz.Stage.{CustomMutationalStage, depth_of, next_depth, new, perform}
use nn_fuzz.Stage.Family.{Depths}
use nn_fuzz.Stage.Family.Laws.{
  IsSound, IsLineage, IsRecent, Family-IsSound, Family-IsRecent, depth_of-IsBelow,
}
use nn_fuzz.Stage.Family.Refinement.{perform_mutational-Family}

module _ {L : Libafl} {T : Testcases L} (env : Env L T) (checks : Bool) where
  -- The depths of the last start, and the stage since.
  pub data Campaign : Depths → CustomMutationalStage L T → Type 0 where
    starts : (h : History L T) → Campaign [] (new h [])
    -- The stage runs on a test case, however that ends.
    performs :
        {old : Depths} {s t : CustomMutationalStage L T} (corpus_idx : ℕ)
        (r : Outcome LibaflError (Unit {0}))
        → Campaign old s
        → perform env checks corpus_idx s ≡ (r, t)
        → Campaign old t
    -- The rest of the client makes its calls.
    elsewhere :
        {old : Depths} {s t : CustomMutationalStage L T} (h : History L T)
        → Campaign old s
        → t ≡ record s { history = h }
        → Campaign old t
    -- The process starts again, with the state that it has left.
    restarts :
        {old now : Depths} {s t : CustomMutationalStage L T} (h : History L T)
        → Campaign old s
        → now ≡ s.depths
        → t ≡ new h s.depths
        → Campaign now t

  -- Through runs of the stage that end in any way, calls of others and restarts, in a build with overflow
  -- checks or without: each test case with a depth was a root, of depth 1, or is one deeper than
  -- an entry before it, exactly with overflow checks and modulo 2 to the 64 without; the
  -- stage's greatest depth is 0 or in the books; no depth is above the number of entries; and what
  -- was entered since the last start, in front of the depths of that time, is at most the greatest
  -- depth, or 1.
  pub campaign_lem :
      (old : Depths) (s : CustomMutationalStage L T)
      → Campaign old s
      → IsSound checks s.max_depth s.depths × IsRecent old s.max_depth s.depths
  unfolding IsLineage
  campaign_lem _ _ (starts h) =
      (record { lineage = tt; attained = inl refl; counted = tt }, ([], refl, tt))
  campaign_lem _ _ (performs {old} {s} {t} corpus_idx r c e) =
      let (sound, recent) = campaign_lem old s c in
      let f = perform_mutational-Family env checks corpus_idx s in
      subst
        (λ (x : Outcome LibaflError (Unit {0}) × CustomMutationalStage L T).
          IsSound checks x.1.max_depth x.1.depths × IsRecent old x.1.max_depth x.1.depths)
        e (Family-IsSound f sound, Family-IsRecent old f recent)
  campaign_lem _ _ (elsewhere {old} {s} h c e) =
      rw e (let (sound, recent) = campaign_lem old s c in (sound, recent))
  campaign_lem _ _ (restarts {old} {now} {s} h c same e) =
      rw (e, same)
        (let (sound, _) = campaign_lem old s c in
          (
            record { lineage = sound.lineage; attained = inl refl; counted = sound.counted },
            ([], refl, tt),
          ))

  -- A stage with less than 2 to the 64, less 1, entries in its books does not overflow on the depth of
  -- any test case, in a build with overflow checks or without.
  pub campaign_never_overflows :
      (old : Depths) (s : CustomMutationalStage L T)
      → Campaign old s
      → length s.depths + 1 < u64_mod
      → (corpus_idx depth : ℕ) → depth_of corpus_idx s.depths ≡ some depth
      → next_depth checks depth s ≡ (ok (depth + 1), s)
  unfolding next_depth
  campaign_never_overflows old s c few corpus_idx depth held =
      let (sound, _) = campaign_lem old s c in
      ground (
        arith,
        few,
        depth_of-IsBelow (length s.depths) corpus_idx depth s.depths sound.counted held,
      )
