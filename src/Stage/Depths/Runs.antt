-- ===== src/Stage/Depths/Runs.antt =====
-- The depths that a whole run of `CustomMutationalStage` gives to its test cases.
use nn_fuzz.Base.{
  ℕ, zero, suc, ◌+◌, ◌≡◌, refl, sym, ap, ◌⊎◌, inl, inr, [], ◌∷◌, none, some, Bool, arith,
  Option-cases,
}
use mathlib.Core.Path.{subst}
use nn_fuzz.Base.Outcome.{Outcome, ok}
use nn_fuzz.Base.Action.{◌>>=◌, >>=-keeps, >>=-ok}
use nn_fuzz.External.{Libafl, LibaflError}
use nn_fuzz.Fuzzer.{Testcases, History, Env, tell, corpus_get}
use nn_fuzz.Stage.{
  CustomMutationalStage, depth_of, in_fuzz, existing, mutate_once, iteration, iterate, iterations,
  perform_mutational,
}
use nn_fuzz.Stage.Family.{Depths}
use nn_fuzz.Stage.Depths.{
  HasChildren, parent_depth, with_parent, depth_of-children, mutate_once-Grows,
}

module _ {L : Libafl} {T : Testcases L} (env : Env L T) (checks : Bool) where
  module _ (parent : ℕ)
      (fresh : (h : History L T) (t : T.Testcase) (id : ℕ)
        → env.new_id h t ≡ inr id
        → ¬ (id ≡ parent)) where
    module _ (depth : ℕ) (known : Depths) where
      module _ (start : Depths)
          (enters : (s : CustomMutationalStage L T)
            → s.depths ≡ start
            → (t : CustomMutationalStage L T) × (existing parent s ≡ (ok depth, t))
              × (t.depths ≡ known))
          (is_known : depth_of parent known ≡ some depth) where
        abbrev Kept : CustomMutationalStage L T → Type 0
        Kept s = (s.depths ≡ start) ⊎ HasChildren parent depth known s.depths

        existing-Grown :
            (s : CustomMutationalStage L T)
            → Kept s
            → (t : CustomMutationalStage L T) × (existing parent s ≡ (ok depth, t))
              × HasChildren parent depth known t.depths
        unfolding existing
        existing-Grown s (inl same) = let (t, e, k) = enters s same in (t, e, ([], tt, k))
        existing-Grown s (inr (new, all, e)) = (
          s,
          ground (arith, depth_of-children parent depth new known all, is_known, e),
          (new, all, e),
        )

        iteration-Kept :
            (i : ℕ) (s : CustomMutationalStage L T)
            → Kept s
            → Kept (iteration env checks parent i s).1
        unfolding iteration
        iteration-Kept i s h =
            >>=-keeps Kept (in_fuzz (tell env (corpus_get parent)))
              (λ _. existing parent >>= mutate_once env checks parent i) s h
              (λ _ t ht.
                let (u, e, hu) = existing-Grown t ht in
                subst (λ (x : Outcome LibaflError (Unit {0}) × CustomMutationalStage L T). Kept x.1)
                  (sym (>>=-ok (existing parent) (mutate_once env checks parent i) t u depth e))
                  (inr ((mutate_once-Grows env checks parent fresh depth known i).step u hu)))

        iterate-Kept :
            (n i : ℕ) (s : CustomMutationalStage L T)
            → Kept s
            → Kept (iterate env checks n i parent s).1
        unfolding iterate
        iterate-Kept zero i s h = h
        iterate-Kept (suc n) i s h =
            >>=-keeps Kept (iteration env checks parent i)
              (λ _. iterate env checks n (i + 1) parent) s (iteration-Kept i s h)
              (λ _ t ht. iterate-Kept n (i + 1) t ht)

        perform-Kept :
            (s : CustomMutationalStage L T)
            → s.depths ≡ start
            → Kept (perform_mutational env checks parent s).1
        unfolding perform_mutational
        perform-Kept s same =
            >>=-keeps Kept (in_fuzz (iterations env checks))
              (λ num. iterate env checks num 0 parent) s (inl same)
              (λ num t ht. iterate-Kept num 0 t ht)

    abbrev Enters : Depths → ℕ → Depths → Type 0
    Enters start depth known =
        (s : CustomMutationalStage L T)
        → s.depths ≡ start
        → (t : CustomMutationalStage L T) × (existing parent s ≡ (ok depth, t)) × (t.depths ≡ known)

    existing_none-Enters :
        (start : Depths) → depth_of parent start ≡ none → Enters start 1 ((parent, 1) ∷ start)
    unfolding existing
    existing_none-Enters start e s same = (
      record s { depths = (parent, 1) ∷ s.depths },
      ground (arith, e, same),
      ap (λ ds. (parent, 1) ∷ ds) same,
    )

    existing_some-Enters :
        (start : Depths) (depth : ℕ) → depth_of parent start ≡ some depth → Enters start depth start
    unfolding existing
    existing_some-Enters start depth e s same = (s, ground (arith, e, same), same)

    new_is_known : (start : Depths) → depth_of parent ((parent, 1) ∷ start) ≡ some 1
    unfolding depth_of
    new_is_known start = ground arith

    -- If the corpus never gives a new test case the identifier of the one that the stage works on: then,
    -- whatever the environment answers and however the run ends, in a build with overflow checks or
    -- without, the depths are as before, or that test case has its depth, which is 1 if it had none, and
    -- in front of the depths there were, the run has entered only other test cases, each one deeper
    -- modulo 2 to the 64.
    pub perform_mutational_depths :
        (s : CustomMutationalStage L T)
        → let ds = (perform_mutational env checks parent s).1.depths in
          (ds ≡ s.depths)
          ⊎ HasChildren parent (parent_depth parent s.depths) (with_parent parent s.depths) ds
    perform_mutational_depths s = elim (Option-cases (depth_of parent s.depths)) [
      | inl e ↦
          rw (e, parent_depth, with_parent)
            (perform-Kept 1 ((parent, 1) ∷ s.depths) s.depths (existing_none-Enters s.depths e)
              (new_is_known s.depths) s refl)
      | inr (d, e) ↦
          rw (e, parent_depth, with_parent)
            (perform-Kept d s.depths s.depths (existing_some-Enters s.depths d e) e s refl)
    ]
