-- ===== src/Args.antt =====
-- nn_fuzz/src/fuzz/mod.rs: `mutate_args`, which adapts the target's arguments to the core.
pub mod Laws
use nn_fuzz.Base.{
  ℕ, ◌+◌, ◌%◌, ltb, ◌⊎◌, inl, inr, List, [], ◌∷◌, Option, none, some, Bool, if◌then◌else◌,
}
use nn_fuzz.Base.Text.{Bytes, bytes_eq}
use nn_fuzz.Base.Outcome.{Outcome, ok, err, panic}
use nn_fuzz.Base.Action.{Action}
use nn_fuzz.Std.Decimal.{ParseIntError, parse_u64, to_string, u64_mod}
use nn_fuzz.Std.Net.{IoError}
use nn_fuzz.External.{LibaflError, illegal_argument, file}

pub data Mutation : Type 0 where
  increment : Mutation

-- The `HashMap` that the configuration is parsed into; the first entry of a key counts.
abbrev pub Works : Type 0
Works = List (Bytes × Mutation)

pub get : Works → Bytes → Option Mutation
get [] k = none
get ((j, v) ∷ m) k = if bytes_eq j k then some v else get m k

-- `parse_text` is the standard library's print of a `ParseIntError`, and `checks` says whether the
-- build checks for overflow: then `value + core_id` panics, else it wraps.
module _ (parse_text : ParseIntError → Bytes) (checks : Bool) (core_id : ℕ) where
  -- `increment` on one argument: the new argument.
  unfoldable pub increment_arg : Bytes → Outcome LibaflError Bytes
  increment_arg arg = elim (parse_u64 arg) [
    | ok value ↦
        if ltb (value + core_id) u64_mod
        then ok (to_string (value + core_id))
        else if checks
        then panic
        else ok (to_string ((value + core_id) % u64_mod))
    | err e ↦ err (illegal_argument (parse_text e))
    | panic ↦ panic
  ]

  -- `Mutation::mutate`
  abbrev pub mutate : Mutation → Bytes → Outcome LibaflError Bytes
  mutate increment arg = increment_arg arg

  -- `mutate_next.take()` and the call: the argument as the loop goes on with it.
  abbrev pub pending : Option Mutation → Bytes → Outcome LibaflError Bytes
  pending none arg = ok arg
  pending (some mutation) arg = mutate mutation arg

  -- The loop over the arguments, which are changed in place: the list comes back also on an error.
  unfoldable pub mutate_loop :
      Works → Option Mutation → List Bytes → Outcome LibaflError (Unit {0}) × List Bytes
  unfolding get
  mutate_loop works next [] = (ok tt, [])
  mutate_loop works next (arg ∷ args) = elim (pending next arg) [
    | ok arg' ↦ let (r, rest) = mutate_loop works (get works arg') args in (r, arg' ∷ rest)
    | err e ↦ (err e, arg ∷ args)
    | panic ↦ (panic, arg ∷ args)
  ]

  -- `config` is what reading the file and parsing its JSON answers: an I/O error, a parse error,
  -- which panics, or the map.
  unfoldable pub mutate_args :
      IoError ⊎ Option Works → List Bytes → Outcome LibaflError (Unit {0}) × List Bytes
  mutate_args (inl e) args = (err (file e), args)
  mutate_args (inr none) args = (panic, args)
  mutate_args (inr (some works)) args = mutate_loop works none args
