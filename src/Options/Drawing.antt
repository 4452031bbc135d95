-- ===== src/Options/Drawing.antt =====
-- From the seeds on the command line, nn_fuzz/src/utils/seed.rs, to those that the clients take,
-- nn_fuzz/src/fuzz/unix.rs.
use nn_fuzz.Base.{ℕ, List, ◌<◌, ◌≡◌, ◌↔◌, sym, ap, ◌∙◌, some, true, contains, arith}
use nn_fuzz.Base.Text.{Bytes}
use nn_fuzz.Base.Outcome.{ok}
use nn_fuzz.Std.Decimal.{u64_mod}
use nn_fuzz.Std.Split.{split}
use nn_fuzz.Seeds.{Unique, IsUnique, from_cmdline}
use nn_fuzz.Seeds.Laws.{IsListed, from_cmdline_lem}
use nn_fuzz.Options.{FuzzerOptions, check_options, client_seed}
use nn_fuzz.Options.Laws.{client_seed_total, client_seed-Distinct}

-- The time is of no account.
one_core :
    (o : FuzzerOptions) (nanos nanos' c d seed seed' : ℕ) (vals : List ℕ)
    → o.seed.vals ≡ some vals
    → client_seed o nanos c ≡ ok seed
    → client_seed o nanos' d ≡ ok seed'
    → c ≡ d
    → seed ≡ seed'
unfolding client_seed
one_core o nanos nanos' c d seed seed' vals given takes takes' same = ground arith

module _ (u : Unique) (lawful : IsUnique u) (o : FuzzerOptions) (args : Bytes) (vals : List ℕ)
    (parsed : from_cmdline u args ≡ ok o.seed) (given : o.seed.vals ≡ some vals) where
  listed :
      (seed : ℕ) → contains seed vals ≡ true → IsListed seed (split b',' args) × (seed < u64_mod)
  listed seed held =
      let (_, _, is, fits) = from_cmdline_lem u lawful args o.seed vals seed parsed given in
      (is.0 held, ground (arith, fits, held))

  -- With a `unique` that keeps its laws: if the seeds of the options were parsed from a list that is not
  -- `auto`, and the options pass the check, then the clients on any two of the chosen cores take, at
  -- any time, a number each that the list stands for, alone or in a range, and that fits 64 bits; and
  -- they take the same one exactly when they are on the same core.
  pub clients_draw_seeds :
      check_options o ≡ ok tt
      → (nanos nanos' c d : ℕ) → contains c o.cores ≡ true
      → contains d o.cores ≡ true
      → (seed seed' : ℕ) × (client_seed o nanos c ≡ ok seed)
        × (client_seed o nanos' d ≡ ok seed')
        × (IsListed seed (split b',' args) × (seed < u64_mod))
        × (IsListed seed' (split b',' args) × (seed' < u64_mod))
        × ((seed ≡ seed') ↔ (c ≡ d))
  clients_draw_seeds checked nanos nanos' c d in_c in_d =
      let (seed, takes, held) = client_seed_total o nanos c vals given checked in_c in
      let (seed', takes', held') = client_seed_total o nanos' d vals given checked in_d in
      let (distinct, _, _, _) = from_cmdline_lem u lawful args o.seed vals seed parsed given in
      (
        seed,
        seed',
        takes,
        takes',
        listed seed held,
        listed seed' held',
        (
          (λ same.
              client_seed-Distinct o nanos nanos' c d seed vals given distinct takes
                (takes' ∙ ap ok (sym same))),
          (one_core o nanos nanos' c d seed seed' vals given takes takes'),
        ),
      )
