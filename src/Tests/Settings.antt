-- ===== src/Tests/Settings.antt =====
-- Runs of the options, the seeds and the arguments.
use nn_fuzz.Base.{
  ℕ, ◌+◌, ◌<◌, ◌≡◌, ◌↔◌, refl, List, [], ◌∷◌, some, contains, Distinct, ◌⊎◌, false, Bool, true,
  get_elem?, length, arith, if◌then◌else◌, ◌%◌,
}
use nn_fuzz.Base.Text.{Bytes, codes}
use nn_fuzz.Base.Outcome.{ok}
use nn_fuzz.Std.Decimal.{parse_u64, u64_mod, ParseIntError, to_string}
use nn_fuzz.Std.Split.{split}
use nn_fuzz.Seeds.{Unique, IsUnique, from_cmdline, push_parts, range_inclusive}
use nn_fuzz.Seeds.Laws.{IsListed, from_cmdline_lem}
use nn_fuzz.Seeds.RoundTrip.{csv, from_cmdline-csv}
use nn_fuzz.Options.{FuzzerOptions, default_options, parse_timeout, check_options, client_seed}
use nn_fuzz.Options.Drawing.{clients_draw_seeds}
use nn_fuzz.Args.{increment, Works, increment_arg, mutate_loop, mutate_args}
use nn_fuzz.Args.Laws.{mutate_args_lem}

-- Each number once, at its last place.
abbrev once : List ℕ → List ℕ
once [] = []
once (x ∷ xs) = if contains x xs then once xs else (x ∷ once xs)

contains-once : (a : ℕ) (xs : List ℕ) → contains a (once xs) ≡ contains a xs
contains-once a [] = refl
contains-once a (x ∷ xs) = ground (arith, contains-once a xs)

once-Distinct : (xs : List ℕ) → Distinct (once xs)
once-Distinct [] = tt
once-Distinct (x ∷ xs) = ground (arith, contains-once x xs, once-Distinct xs)

abbrev unique : Unique
unique = record { unique = once }

unique-IsUnique : IsUnique unique
unique-IsUnique = record { distinct = once-Distinct; same_members = contains-once }

-- The cores 4 and 6 with the seeds 10 and 11.
abbrev options : FuzzerOptions
options = record (default_options (codes "target")) {
  cores = 4 ∷ 6 ∷ [];
  seed = record { cmdline = codes "10-11"; vals = some (10 ∷ 11 ∷ []) };
}

clients_draw_seeds_example :
    (seed seed' : ℕ) × (client_seed options 0 6 ≡ ok seed)
    × (client_seed options 9 4 ≡ ok seed')
    × (IsListed seed (split b',' (codes "10-11")) × (seed < u64_mod))
    × (IsListed seed' (split b',' (codes "10-11")) × (seed' < u64_mod))
    × ((seed ≡ seed') ↔ Path ℕ 6 4)
unfolding check_options from_cmdline push_parts range_inclusive split parse_u64
clients_draw_seeds_example =
    clients_draw_seeds unique unique-IsUnique options (codes "10-11") (10 ∷ 11 ∷ []) refl refl refl
      0 9 6 4 refl refl

from_cmdline_lem_example :
    Distinct (4 ∷ 5 ∷ [])
    × (¬ Path (List ℕ) (4 ∷ 5 ∷ []) [])
    × ((contains 5 (4 ∷ 5 ∷ []) ≡ true) ↔ IsListed 5 (split b',' (codes "4-5")))
    × ((contains 5 (4 ∷ 5 ∷ []) ≡ false) ⊎ (5 < u64_mod))
unfolding from_cmdline push_parts range_inclusive split parse_u64
from_cmdline_lem_example =
    from_cmdline_lem unique unique-IsUnique (codes "4-5")
      (record { cmdline = codes "4-5"; vals = some (4 ∷ 5 ∷ []) }) (4 ∷ 5 ∷ []) 5 refl refl

from_cmdline-csv_example :
    from_cmdline unique (csv (3 ∷ 12 ∷ []))
    ≡ ok (record { cmdline = csv (3 ∷ 12 ∷ []); vals = some (3 ∷ 12 ∷ []) })
from_cmdline-csv_example = from_cmdline-csv unique 3 (12 ∷ []) (ground arith)

-- The argument behind `-p` is a port.
abbrev works : Works
works = (codes "-p", increment) ∷ []

abbrev no_text : ParseIntError → Bytes
no_text e = []

abbrev args : List Bytes
args = codes "-p" ∷ codes "80" ∷ []

mutate_args_lem_example :
    (length (codes "-p" ∷ codes "83" ∷ []) ≡ length args)
    × ((new : Bytes) × (get_elem? (codes "-p" ∷ codes "83" ∷ []) 1 ≡ some new)
        × ((v : ℕ) × (parse_u64 (codes "80") ≡ ok v)
            × (new ≡ to_string ((v + 3) % u64_mod))
            × (parse_u64 new ≡ ok ((v + 3) % u64_mod))
            × (Path Bool true false ⊎ (v + 3 < u64_mod))))
unfolding mutate_args increment_arg mutate_loop to_string parse_u64
mutate_args_lem_example =
    mutate_args_lem no_text true 3 works args (codes "-p" ∷ codes "83" ∷ []) 1 (codes "80") refl
      refl

-- The defaults are what their parsers make of the texts in the source, and they pass the check.
defaults_parse :
    (from_cmdline unique (codes "auto") ≡ ok ((default_options []).seed))
    × (parse_timeout (codes "1000") ≡ ok ((default_options []).timeout))
    × (check_options (default_options []) ≡ ok tt)
unfolding from_cmdline parse_timeout parse_u64 check_options
defaults_parse = (refl, refl, refl)
