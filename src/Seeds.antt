-- ===== src/Seeds.antt =====
-- nn_fuzz/src/utils/seed.rs: the list of seeds on the command line.
pub mod Laws
pub mod RoundTrip
use nn_fuzz.Base.{
  ℕ, zero, suc, ◌+◌, ◌-◌, ◌≡◌, leb, List, [], ◌∷◌, ◌++◌, Option, none, some, contains, Distinct,
  if◌then◌else◌,
}
use nn_fuzz.Base.Text.{Bytes, codes, bytes_eq}
use nn_fuzz.Base.Outcome.{Outcome, ok, err, ◌>>=◌, map_err}
use nn_fuzz.Std.Decimal.{ParseIntError, parse_u64}
use nn_fuzz.Std.Split.{split}
use nn_fuzz.External.{LibaflError, illegal_argument, parse}

pub record Seeds : Type 0 where
  pub cmdline : Bytes
  pub vals : Option (List ℕ)

-- `Itertools::unique` followed by `collect`: each number once.
pub record Unique : Type 0 where
  pub unique : List ℕ → List ℕ

pub record IsUnique (u : Unique) : Type 0 where
  pub distinct : (xs : List ℕ) → Distinct (u.unique xs)
  pub same_members : (a : ℕ) (xs : List ℕ) → contains a (u.unique xs) ≡ contains a xs

unfoldable pub count_up : ℕ → ℕ → List ℕ
count_up zero a = []
count_up (suc n) a = a ∷ count_up n (a + 1)

-- `a..=b`
unfoldable pub range_inclusive : ℕ → ℕ → List ℕ
unfolding count_up
range_inclusive a b = if leb a b then count_up (b - a + 1) a else []

-- The body of the loop: what one part between commas pushes. A part with two or more dashes pushes
-- nothing.
abbrev pub push_fields : List Bytes → Outcome ParseIntError (List ℕ)
push_fields (x ∷ []) = do seed ← parse_u64 x; ok (seed ∷ [])
push_fields (x ∷ y ∷ []) = do
  first ← parse_u64 x
  last ← parse_u64 y
  ok (range_inclusive first last)
push_fields _ = ok []

unfoldable pub push_parts : List Bytes → List ℕ → Outcome ParseIntError (List ℕ)
push_parts [] seeds = ok seeds
push_parts (csv ∷ rest) seeds = do
  pushed ← push_fields (split b'-' csv)
  push_parts rest (seeds ++ pushed)

module _ (u : Unique) where
  abbrev finish : Bytes → List ℕ → Outcome LibaflError Seeds
  finish args [] = err (illegal_argument (codes "No seeds specified! parsed: " ++ args))
  finish args (x ∷ xs) = ok (record { cmdline = args; vals = some (u.unique (x ∷ xs)) })

  unfoldable pub from_cmdline : Bytes → Outcome LibaflError Seeds
  from_cmdline args =
      if bytes_eq args (codes "auto")
      then ok (record { cmdline = args; vals = none })
      else (do seeds ← map_err parse (push_parts (split b',' args) []); finish args seeds)
