-- ===== src/Seeds/Laws.antt =====
-- What a parsed list of seeds holds.
use nn_fuzz.Base.{
  ℕ, zero, suc, ◌+◌, ◌-◌, ◌≤◌, ◌<◌, ◌≡◌, ◌≢◌, refl, ◌↔◌, ◌⊎◌, inl, inr, List, [], ◌∷◌, ◌++◌, some,
  true, false, contains, contains-append, Distinct, arith, Bool-cases,
}
use nn_fuzz.Base.Text.{Bytes, codes, bytes_eq}
use nn_fuzz.Base.Outcome.{Outcome-cases, ok}
use nn_fuzz.Std.Decimal.{parse_u64, u64_mod}
use nn_fuzz.Std.Decimal.RoundTrip.{parse_u64-lt}
use nn_fuzz.Std.Split.{split}
use nn_fuzz.Seeds.{
  Seeds, Unique, IsUnique, count_up, range_inclusive, push_fields, push_parts, from_cmdline,
}

-- The numbers that one part of the list stands for, by its fields between dashes.
abbrev pub Denotes : ℕ → List Bytes → Type 0
Denotes a (x ∷ []) = parse_u64 x ≡ ok a
Denotes a (x ∷ y ∷ []) =
    (first : ℕ) × (last : ℕ) × (parse_u64 x ≡ ok first)
    × (parse_u64 y ≡ ok last)
    × (first ≤ a)
    × (a ≤ last)
Denotes a _ = ⊥

abbrev pub IsListed : ℕ → List Bytes → Type 0
IsListed a [] = ⊥
IsListed a (csv ∷ rest) = Denotes a (split b'-' csv) ⊎ IsListed a rest

contains-count_up : (a n lo : ℕ) → (contains a (count_up n lo) ≡ true) ↔ ((lo ≤ a) × (a < lo + n))
unfolding count_up
contains-count_up a zero lo = ground arith
contains-count_up a (suc n) lo = ground (arith, contains-count_up a n (lo + 1))

contains-range_inclusive :
    (a lo hi : ℕ) → (contains a (range_inclusive lo hi) ≡ true) ↔ ((lo ≤ a) × (a ≤ hi))
unfolding range_inclusive
contains-range_inclusive a lo hi = ground (arith, contains-count_up a (hi - lo + 1) lo)

contains-push_fields :
    (a : ℕ) (fields : List Bytes) (pushed : List ℕ)
    → push_fields fields ≡ ok pushed
    → (contains a pushed ≡ true) ↔ Denotes a fields
contains-push_fields a [] pushed h = ground arith
contains-push_fields a (x ∷ []) pushed h = elim (Outcome-cases (parse_u64 x)) [
  | inl (n, e) ↦ ground (arith, e)
  | inr (inl (_, e)) ↦ absurd (ground (arith, e))
  | inr (inr e) ↦ absurd (ground (arith, e))
]
contains-push_fields a (x ∷ y ∷ []) pushed h = elim (Outcome-cases (parse_u64 x)) [
  | inl (lo, e) ↦ elim (Outcome-cases (parse_u64 y)) [
    | inl (hi, d) ↦
        let pushes : pushed ≡ range_inclusive lo hi = ground (arith, e, d) in
        (
          λ c. (
            lo,
            hi,
            e,
            d,
            ground (arith, contains-range_inclusive a lo hi),
            ground (arith, contains-range_inclusive a lo hi),
          ),
          λ (first, last, e', d', above, below). ground (arith, contains-range_inclusive a lo hi),
        )
    | inr (inl (_, d)) ↦ absurd (ground (arith, e, d))
    | inr (inr d) ↦ absurd (ground (arith, e, d))
  ]
  | inr (inl (_, e)) ↦ absurd (ground (arith, e))
  | inr (inr e) ↦ absurd (ground (arith, e))
]
contains-push_fields a (x ∷ y ∷ z ∷ more) pushed h = ground arith

contains-push_parts :
    (a : ℕ) (parts : List Bytes) (seeds all : List ℕ)
    → push_parts parts seeds ≡ ok all
    → (contains a all ≡ true) ↔ ((contains a seeds ≡ true) ⊎ IsListed a parts)
unfolding push_parts
contains-push_parts a [] seeds all h = ground arith
contains-push_parts a (csv ∷ rest) seeds all h =
    elim (Outcome-cases (push_fields (split b'-' csv))) [
      | inl (pushed, e) ↦ ground (
        arith,
        e,
        contains-push_fields a (split b'-' csv) pushed e,
        contains-push_parts a rest (seeds ++ pushed) all,
        contains-append a seeds pushed,
      )
      | inr (inl (_, e)) ↦ absurd (ground (arith, e))
      | inr (inr e) ↦ absurd (ground (arith, e))
    ]

Denotes-lt : (a : ℕ) (fields : List Bytes) → Denotes a fields → a < u64_mod
Denotes-lt a [] h = absurd h
Denotes-lt a (x ∷ []) h = parse_u64-lt x a h
Denotes-lt a (x ∷ y ∷ []) (_, last, _, e, _, le) = omega (arith, parse_u64-lt y last e)
Denotes-lt a (x ∷ y ∷ z ∷ more) h = absurd h

IsListed-lt : (a : ℕ) (parts : List Bytes) → IsListed a parts → a < u64_mod
IsListed-lt a [] h = absurd h
IsListed-lt a (csv ∷ rest) (inl h) = Denotes-lt a (split b'-' csv) h
IsListed-lt a (csv ∷ rest) (inr h) = IsListed-lt a rest h

-- What `from_cmdline` returned for a list, not for the word `auto`.
pub from_cmdline_inv :
    (u : Unique) (args : Bytes) (s : Seeds) (vals : List ℕ)
    → from_cmdline u args ≡ ok s
    → s.vals ≡ some vals
    → (seeds : List ℕ) × (push_parts (split b',' args) [] ≡ ok seeds)
      × (seeds ≢ [])
      × (vals ≡ u.unique seeds)
unfolding from_cmdline
from_cmdline_inv u args s vals h v = elim (Bool-cases (bytes_eq args (codes "auto"))) [
  | inl auto ↦ absurd (ground (arith, auto))
  | inr listed ↦ elim (Outcome-cases (push_parts (split b',' args) [])) [
    | inl ([], e) ↦ absurd (ground (arith, listed, e))
    | inl (x ∷ xs, e) ↦ (x ∷ xs, e, (λ p. cc), ground (arith, listed, e))
    | inr (inl (_, e)) ↦ absurd (ground (arith, listed, e))
    | inr (inr e) ↦ absurd (ground (arith, listed, e))
  ]
]

contains_some : (xs : List ℕ) → xs ≢ [] → (a : ℕ) × (contains a xs ≡ true)
contains_some [] h = absurd (h refl)
contains_some (x ∷ xs) h = (x, ground arith)

-- With a `unique` that keeps its laws, the seeds of a list that is not `auto` are exactly the
-- numbers that its parts stand for, alone or as ends of a range, each once; there is at least one,
-- and all fit 64 bits.
pub from_cmdline_lem :
    (u : Unique)
    → IsUnique u
    → (args : Bytes) (s : Seeds) (vals : List ℕ) (a : ℕ) → from_cmdline u args ≡ ok s
    → s.vals ≡ some vals
    → Distinct vals
      × (vals ≢ [])
      × ((contains a vals ≡ true) ↔ IsListed a (split b',' args))
      × ((contains a vals ≡ false) ⊎ (a < u64_mod))
from_cmdline_lem u lawful args s vals a h v =
    let (seeds, pushed, some_seed, same) = from_cmdline_inv u args s vals h v in
    let members = lawful.same_members a seeds in
    let spec = contains-push_parts a (split b',' args) [] seeds pushed in
    (
      rw same (lawful.distinct seeds),
      (λ p.
          let (x, held) = contains_some seeds some_seed in
          ground (arith, lawful.same_members x seeds, same, p, held)),
      ground (arith, same),
      elim (Bool-cases (contains a vals)) [
        | inl c ↦ inr (IsListed-lt a (split b',' args) (ground (arith, same)))
        | inr c ↦ inl c
      ],
    )
