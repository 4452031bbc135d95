-- ===== src/Args/Laws.antt =====
-- Which arguments `mutate_args` changes, and to what.
use nn_fuzz.Base.{
  ℕ, zero, suc, ◌+◌, ◌%◌, ◌<◌, ◌≡◌, ◌⊎◌, refl, sym, ap, ◌∙◌, inl, inr, List, [], ◌∷◌, Option, none,
  some, Bool, false, length, get_elem?, arith,
}
use mathlib.Core.Path.{subst}
use nn_fuzz.Base.Text.{Bytes}
use nn_fuzz.Base.Outcome.{Outcome-cases, ok}
use nn_fuzz.Std.Decimal.{ParseIntError, parse_u64, to_string, u64_mod}
use nn_fuzz.Std.Decimal.RoundTrip.{parse_u64-to_string}
use nn_fuzz.Args.{Mutation, increment, Works, get, increment_arg, pending, mutate_loop, mutate_args}

module _ (parse_text : ParseIntError → Bytes) (checks : Bool) (core_id : ℕ) where
  length-mutate_loop :
      (works : Works) (next : Option Mutation) (args : List Bytes)
      → length (mutate_loop parse_text checks core_id works next args).1 ≡ length args
  unfolding mutate_loop
  length-mutate_loop works next [] = refl
  length-mutate_loop works next (arg ∷ args) =
      elim (Outcome-cases (pending parse_text checks core_id next arg)) [
        | inl (arg', e) ↦ ground (arith, e, length-mutate_loop works (get works arg') args)
        | inr (inl (_, e)) ↦ ground (arith, e)
        | inr (inr e) ↦ ground (arith, e)
      ]

  mutate_loop-cons_inv :
      (works : Works) (a : Bytes) (args out : List Bytes) (next : Option Mutation)
      → mutate_loop parse_text checks core_id works next (a ∷ args) ≡ (ok tt, out)
      → (x : Bytes) × (rest : List Bytes) × (out ≡ x ∷ rest)
        × (pending parse_text checks core_id next a ≡ ok x)
        × (mutate_loop parse_text checks core_id works (get works x) args ≡ (ok tt, rest))
  unfolding mutate_loop
  mutate_loop-cons_inv works a args out next h =
      elim (Outcome-cases (pending parse_text checks core_id next a)) [
        | inl (x, e) ↦ (
          x,
          (mutate_loop parse_text checks core_id works (get works x) args).1,
          ground (arith, e),
          e,
          ground (arith, e),
        )
        | inr (inl (_, e)) ↦ absurd (ground (arith, e))
        | inr (inr e) ↦ absurd (ground (arith, e))
      ]

  -- The mutation in front of an argument: that of the key before it, as the run has left that key.
  abbrev pub behind : Works → Option Mutation → List Bytes → ℕ → Option Mutation
  behind works first out zero = first
  behind works first out (suc i) = elim (get_elem? out i) [ none ↦ none | some key ↦ get works key ]

  -- What a mutation has made of an argument.
  abbrev pub IsChanged : Option Mutation → Bytes → Bytes → Type 0
  IsChanged none arg new = new ≡ arg
  IsChanged (some increment) arg new =
      (v : ℕ) × (parse_u64 arg ≡ ok v)
      × (new ≡ to_string ((v + core_id) % u64_mod))
      × (parse_u64 new ≡ ok ((v + core_id) % u64_mod))
      × ((checks ≡ false) ⊎ (v + core_id < u64_mod))

  increment_arg-IsChanged :
      (arg new : Bytes)
      → increment_arg parse_text checks core_id arg ≡ ok new
      → IsChanged (some increment) arg new
  unfolding increment_arg
  increment_arg-IsChanged arg new h = elim (Outcome-cases (parse_u64 arg)) [
    | inl (v, e) ↦
        let printed : new ≡ to_string ((v + core_id) % u64_mod) = ground (arith, e) in
        (
          v,
          e,
          printed,
          rw printed (parse_u64-to_string ((v + core_id) % u64_mod) (omega arith)),
          ground (arith, e),
        )
    | inr (inl (_, e)) ↦ absurd (ground (arith, e))
    | inr (inr e) ↦ absurd (ground (arith, e))
  ]

  pending-IsChanged :
      (mutation : Option Mutation) (arg new : Bytes)
      → pending parse_text checks core_id mutation arg ≡ ok new
      → IsChanged mutation arg new
  pending-IsChanged none arg new h = ground arith
  pending-IsChanged (some increment) arg new h = increment_arg-IsChanged arg new h

  behind-cons :
      (works : Works) (next : Option Mutation) (x : Bytes) (rest : List Bytes) (i : ℕ)
      → behind works (get works x) rest i ≡ behind works next (x ∷ rest) (suc i)
  behind-cons works next x rest zero = refl
  behind-cons works next x rest (suc i) = refl

  mutate_loop_lem :
      (works : Works) (args out : List Bytes) (next : Option Mutation) (i : ℕ) (arg : Bytes)
      → mutate_loop parse_text checks core_id works next args ≡ (ok tt, out)
      → get_elem? args i ≡ some arg
      → (new : Bytes) × (get_elem? out i ≡ some new)
        × (pending parse_text checks core_id (behind works next out i) arg ≡ ok new)
  mutate_loop_lem works [] out next i arg h ha = cc
  mutate_loop_lem works (a ∷ args) out next zero arg h ha =
      let (x, rest, e, p, _) = mutate_loop-cons_inv works a args out next h in
      let same : a ≡ arg = ground arith in
      (x, ground arith, subst (λ t. pending parse_text checks core_id next t ≡ ok x) same p)
  mutate_loop_lem works (a ∷ args) out next (suc i) arg h ha =
      let (x, rest, e, p, h') = mutate_loop-cons_inv works a args out next h in
      let (new, found, same) = mutate_loop_lem works args rest (get works x) i arg h' ha in
      (new, rw e found, rw (e, sym (behind-cons works next x rest i)) same)

  -- A run that ends well keeps the number of the arguments. Each argument behind a key, as that key was
  -- left, was a number, and it is now the decimal print of that number and the core's, modulo 2 to the
  -- 64, which reads back as that; in a build with overflow checks nothing wraps. Every other argument,
  -- the first of all, is what it was.
  pub mutate_args_lem :
      (works : Works) (args out : List Bytes) (i : ℕ) (arg : Bytes)
      → mutate_args parse_text checks core_id (inr (some works)) args ≡ (ok tt, out)
      → get_elem? args i ≡ some arg
      → (length out ≡ length args)
        × ((new : Bytes) × (get_elem? out i ≡ some new)
            × IsChanged (behind works none out i) arg new)
  unfolding mutate_args
  mutate_args_lem works args out i arg h ha =
      let (new, found, same) = mutate_loop_lem works args out none i arg h ha in
      (
        ap (λ x. length x.1) (sym h) ∙ length-mutate_loop works none args,
        (new, found, pending-IsChanged (behind works none out i) arg new same),
      )
