-- ===== src/Stage/Family.antt =====
-- nn_fuzz/src/components/stages.rs: what a run of `CustomMutationalStage` may do to the depths, as a
-- relation between what is kept before it and behind it.
pub mod Refinement
pub mod Laws
use nn_fuzz.Base.{ℕ, ◌+◌, ◌%◌, ◌≡◌, ltb, List, ◌∷◌, none, some, Bool, true, if◌then◌else◌}
use nn_fuzz.Std.Decimal.{u64_mod}
use nn_fuzz.Stage.{depth_of}

abbrev pub Depths : Type 0
Depths = List (ℕ × ℕ)

-- `exist_depth + 1` on 64 bits, in a build with overflow checks or in one without.
pub record IsNext (checks : Bool) (depth new : ℕ) : Type 0 where
  pub wrapped : new ≡ (depth + 1) % u64_mod
  pub exact : checks ≡ true → new ≡ depth + 1

abbrev pub higher : ℕ → ℕ → ℕ
higher m n = if ltb m n then n else m

-- From a greatest depth and the depths that are known, by any number of steps: a test case without a
-- depth is a root, and one that was found from another is its child, one deeper.
pub data Family (checks : Bool) (greatest : ℕ) (known : Depths) : ℕ → Depths → Type 0 where
  start : {m : ℕ} {ds : Depths} → m ≡ greatest → ds ≡ known → Family checks greatest known m ds
  root :
      {m : ℕ} {ds ds' : Depths} (idx : ℕ)
      → Family checks greatest known m ds
      → depth_of idx ds ≡ none
      → ds' ≡ (idx, 1) ∷ ds
      → Family checks greatest known m ds'
  child :
      {m m' : ℕ} {ds ds' : Depths} (parent depth idx new : ℕ)
      → Family checks greatest known m ds
      → depth_of parent ds ≡ some depth
      → IsNext checks depth new
      → m' ≡ higher m new
      → ds' ≡ (idx, new) ∷ ds
      → Family checks greatest known m' ds'
