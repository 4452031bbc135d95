-- ===== src/Options/Laws.antt =====
-- The seeds of clients whose options pass the check.
use nn_fuzz.Base.{
  ℕ, ◌≤◌, ◌==◌, ◌≡◌, refl, List, [], ◌∷◌, none, some, true, false, contains, Distinct, length,
  arith, inl, inr, Bool-cases,
}
use nn_fuzz.Base.Outcome.{ok, panic}
use nn_fuzz.Options.{FuzzerOptions, check_options, find_seed, client_seed}

find_seed_total :
    (c : ℕ) (cores vals : List ℕ)
    → length cores ≤ length vals
    → contains c cores ≡ true
    → (seed : ℕ) × (find_seed c cores vals ≡ some seed) × (contains seed vals ≡ true)
unfolding find_seed
find_seed_total c [] vals h m = cc
find_seed_total c (core ∷ cores) [] h m = absurd (omega arith)
find_seed_total c (core ∷ cores) (seed ∷ vals) h m = elim (Bool-cases (core == c)) [
  | inl same ↦ (seed, rw same, ground arith)
  | inr other ↦
      let (x, found, held) = find_seed_total c cores vals (omega arith) (ground arith) in
      (x, rw other found, ground arith)
]

find_seed-contains :
    (c seed : ℕ) (cores vals : List ℕ)
    → find_seed c cores vals ≡ some seed
    → contains seed vals ≡ true
unfolding find_seed
find_seed-contains c seed [] vals h = cc
find_seed-contains c seed (core ∷ cores) [] h = cc
find_seed-contains c seed (core ∷ cores) (x ∷ vals) h =
    ground (arith, find_seed-contains c seed cores vals)

find_seed_injective :
    (c d seed : ℕ) (cores vals : List ℕ)
    → Distinct vals
    → find_seed c cores vals ≡ some seed
    → find_seed d cores vals ≡ some seed
    → c ≡ d
unfolding find_seed
find_seed_injective c d seed [] vals u hc hd = cc
find_seed_injective c d seed (core ∷ cores) [] u hc hd = cc
find_seed_injective c d seed (core ∷ cores) (x ∷ vals) u hc hd = ground (
  arith,
  find_seed_injective c d seed cores vals u.1,
  find_seed-contains c seed cores vals,
  find_seed-contains d seed cores vals,
)

-- If the options have seeds and pass the check, a client on any of the chosen cores finds its seed
-- among those given, and does not panic.
pub client_seed_total :
    (o : FuzzerOptions) (nanos c : ℕ) (vals : List ℕ)
    → o.seed.vals ≡ some vals
    → check_options o ≡ ok tt
    → contains c o.cores ≡ true
    → (seed : ℕ) × (client_seed o nanos c ≡ ok seed) × (contains seed vals ≡ true)
unfolding check_options client_seed
client_seed_total o nanos c vals given checked m =
    let (seed, found, held) = find_seed_total c o.cores vals (ground arith) m in
    (seed, ground arith, held)

-- If no seed is given twice, two clients that take the same seed, at any time, are on the same core.
pub client_seed-Distinct :
    (o : FuzzerOptions) (nanos nanos' c d seed : ℕ) (vals : List ℕ)
    → o.seed.vals ≡ some vals
    → Distinct vals
    → client_seed o nanos c ≡ ok seed
    → client_seed o nanos' d ≡ ok seed
    → c ≡ d
unfolding client_seed
client_seed-Distinct o nanos nanos' c d seed vals given u hc hd =
    ground (arith, find_seed_injective c d seed o.cores vals u)

-- A core that is not among the chosen ones has no seed: its client panics.
find_seed_absent :
    (c : ℕ) (cores vals : List ℕ) → contains c cores ≡ false → find_seed c cores vals ≡ none
unfolding find_seed
find_seed_absent c [] vals h = refl
find_seed_absent c (core ∷ cores) [] h = refl
find_seed_absent c (core ∷ cores) (x ∷ vals) h = ground (arith, find_seed_absent c cores vals)

-- If seeds are given, a client on a core that is not among the chosen ones panics.
client_seed_absent :
    (o : FuzzerOptions) (nanos c : ℕ) (vals : List ℕ)
    → o.seed.vals ≡ some vals
    → contains c o.cores ≡ false
    → client_seed o nanos c ≡ panic
unfolding client_seed
client_seed_absent o nanos c vals given h = ground (arith, find_seed_absent c o.cores vals h)
