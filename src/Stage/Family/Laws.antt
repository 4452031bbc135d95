-- ===== src/Stage/Family/Laws.antt =====
-- What the steps of `Family` keep, whatever they are.
use nn_fuzz.Base.{
  ℕ, suc, ◌+◌, ◌-◌, ◌≤◌, ◌≡◌, refl, ltb, ◌⊎◌, inl, inr, [], ◌∷◌, none, some, Bool, All, arith,
  length, Bool-cases, ap, ◌++◌,
}
use mathlib.Core.List.{Memᴰ}
use mathlib.Core.List.Memᴰ.{head, tail}
use nn_fuzz.Stage.{depth_of}
use nn_fuzz.Stage.Family.{Depths, IsNext, higher, Family, start, root, child}

-- The greatest depth that the stage allows: what it keeps, and at least 1.
abbrev pub ceiling : ℕ → ℕ
ceiling max_depth = 1 + (max_depth - 1)

abbrev pub IsBelow : ℕ → ℕ × ℕ → Type 0
IsBelow bound entry = entry.1 ≤ bound

All-IsBelow : (m m' : ℕ) → m ≤ m' → (ds : Depths) → All (IsBelow m) ds → All (IsBelow m') ds
All-IsBelow m m' le [] h = tt
All-IsBelow m m' le (d ∷ ds) (b, h) = (omega arith, All-IsBelow m m' le ds h)

pub depth_of-IsBelow :
    (m idx d : ℕ) (ds : Depths) → All (IsBelow m) ds → depth_of idx ds ≡ some d → d ≤ m
unfolding depth_of
depth_of-IsBelow m idx d [] h e = absurd cc
depth_of-IsBelow m idx d ((i, depth) ∷ ds) (b, h) e = ground (arith, depth_of-IsBelow m idx d ds h)

-- The greatest depth is that of a test case, unless none was found yet.
abbrev pub IsAttained : ℕ → Depths → Type 0
IsAttained m ds = (m ≡ 0) ⊎ ((idx : ℕ) × Memᴰ (idx, m) ds)

-- Each test case is a root, or one deeper than one that had its depth before it.
abbrev pub IsDescendant : Bool → Depths → ℕ → ℕ → Type 0
IsDescendant checks before idx d =
    ((d ≡ 1) × (depth_of idx before ≡ none))
    ⊎ ((parent : ℕ) × (depth : ℕ) × (depth_of parent before ≡ some depth) × IsNext checks depth d)

unfoldable pub IsLineage : Bool → Depths → Type 0
IsLineage checks [] = Unit
IsLineage checks ((idx, d) ∷ ds) = IsDescendant checks ds idx d × IsLineage checks ds

-- What was entered in front of the old depths is not above the greatest depth that is allowed.
abbrev pub IsRecent : Depths → ℕ → Depths → Type 0
IsRecent old m ds = (new : Depths) × (ds ≡ new ++ old) × All (IsBelow (ceiling m)) new

-- What holds from the first depth on, behind any number of runs.
pub record IsSound (checks : Bool) (m : ℕ) (ds : Depths) : Type 0 where
  pub lineage : IsLineage checks ds
  pub attained : IsAttained m ds
  pub counted : All (IsBelow (length ds)) ds

IsAttained-more : (m : ℕ) (e : ℕ × ℕ) (ds : Depths) → IsAttained m ds → IsAttained m (e ∷ ds)
IsAttained-more m e ds (inl none_yet) = inl none_yet
IsAttained-more m e ds (inr (idx, among)) = inr (idx, tail among)

IsAttained-child :
    (m idx new : ℕ) (ds : Depths) → IsAttained m ds → IsAttained (higher m new) ((idx, new) ∷ ds)
IsAttained-child m idx new ds h = elim (Bool-cases (ltb m new)) [
  | inl e ↦ rw e (inr (idx, head refl))
  | inr e ↦ rw e (IsAttained-more m (idx, new) ds h)
]

new_counted :
    (depth new : ℕ) {checks : Bool} (ds : Depths)
    → depth ≤ length ds
    → IsNext checks depth new
    → new ≤ suc (length ds)
new_counted depth new ds le next = omega (arith, next.wrapped)

longer :
    (e : ℕ × ℕ) (ds : Depths) → All (IsBelow (length ds)) ds → All (IsBelow (length (e ∷ ds))) ds
longer e ds = All-IsBelow (length ds) (suc (length ds)) (omega arith) ds

-- By the steps of the relation.
module _ {ℓ} {checks : Bool} {greatest : ℕ} {known : Depths} (P : ℕ → Depths → Type ℓ)
    (at_root : (m idx : ℕ) (ds : Depths) → P m ds → depth_of idx ds ≡ none → P m ((idx, 1) ∷ ds))
    (at_child : (m parent depth idx new : ℕ) (ds : Depths)
      → P m ds
      → depth_of parent ds ≡ some depth
      → IsNext checks depth new
      → P (higher m new) ((idx, new) ∷ ds)) where
  Family-keeps :
      {m : ℕ} {ds : Depths} → Family checks greatest known m ds → P greatest known → P m ds
  Family-keeps (start e e') h = rw (e, e') h
  Family-keeps (root {m} {ds} idx f unknown e) h =
      rw e (at_root m idx ds (Family-keeps f h) unknown)
  Family-keeps (child {m} {m'} {ds} parent depth idx new f held next e e') h =
      rw (e, e') (at_child m parent depth idx new ds (Family-keeps f h) held next)

module _ {checks : Bool} {greatest : ℕ} {known : Depths} where
  pub Family-bounded :
      {m : ℕ} {ds : Depths}
      → Family checks greatest known m ds
      → (low : ℕ) → low ≤ greatest
      → All (IsBelow (ceiling greatest)) known
      → (low ≤ m) × All (IsBelow (ceiling m)) ds
  Family-bounded f low le h =
      Family-keeps (λ m ds. (low ≤ m) × All (IsBelow (ceiling m)) ds)
        (λ m idx ds (le, below) _. (le, (omega arith, below)))
        (λ m parent depth idx new ds (le, below) _ _. (
          ground (arith, le),
          (ground arith, All-IsBelow (ceiling m) (ceiling (higher m new)) (ground arith) ds below),
        ))
        f (le, h)

  -- What was entered since is at most the greatest depth, or a root.
  pub Family-IsRecent :
      {m : ℕ} {ds : Depths} (old : Depths)
      → Family checks greatest known m ds
      → IsRecent old greatest known
      → IsRecent old m ds
  Family-IsRecent old f h =
      Family-keeps (IsRecent old)
        (λ m idx ds (new, e, below) _.
          ((idx, 1) ∷ new, ap (λ xs. (idx, 1) ∷ xs) e, (omega arith, below)))
        (λ m parent depth idx d ds (new, e, below) _ _. (
          (idx, d) ∷ new,
          ap (λ xs. (idx, d) ∷ xs) e,
          (ground arith, All-IsBelow (ceiling m) (ceiling (higher m d)) (ground arith) new below),
        ))
        f h

  pub Family-IsSound :
      {m : ℕ} {ds : Depths}
      → Family checks greatest known m ds
      → IsSound checks greatest known
      → IsSound checks m ds
  unfolding IsLineage
  Family-IsSound =
      Family-keeps (IsSound checks)
        (λ m idx ds h unknown. record {
          lineage = (inl (refl, unknown), h.lineage);
          attained = IsAttained-more m (idx, 1) ds h.attained;
          counted = (omega arith, longer (idx, 1) ds h.counted);
        })
        (λ m parent depth idx new ds h held next. record {
          lineage = (inr (parent, depth, held, next), h.lineage);
          attained = IsAttained-child m idx new ds h.attained;
          counted = (
            new_counted depth new ds (depth_of-IsBelow (length ds) parent depth ds h.counted held)
                next,
            longer (idx, new) ds h.counted,
          );
        })
