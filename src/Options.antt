-- ===== src/Options.antt =====
-- nn_fuzz/src/fuzz/mod.rs: `check_options`; nn_fuzz/src/fuzz/unix.rs: the seed that a client takes;
-- nn_fuzz/src/cli.rs: `parse_timeout`.
pub mod Laws
pub mod Drawing
use nn_fuzz.Base.{
  ℕ, ◌==◌, ltb, length, List, [], ◌∷◌, ◌++◌, Option, none, some, Bool, false, if◌then◌else◌,
}
use nn_fuzz.Base.Text.{Bytes, codes}
use nn_fuzz.Base.Outcome.{Outcome, ok, err, panic, map_err}
use nn_fuzz.Std.Decimal.{to_string, parse_u64}
use nn_fuzz.External.{LibaflError, illegal_argument, parse}
use nn_fuzz.Seeds.{Seeds}

-- Paths are their bytes, `cores` is the list `ids` of `Cores`, and `timeout` is in milliseconds.
pub record FuzzerOptions : Type 0 where
  pub executable : Bytes
  pub args : List Bytes
  pub cores : List ℕ
  pub core_args_config : Option Bytes
  pub stdout : Option Bytes
  pub seed : Seeds
  pub timeout : ℕ
  pub tokens : List Bytes
  pub debug_child : Bool
  pub input : Option (List Bytes)
  pub output : Bytes
  pub queue : Bytes
  pub generate_count : ℕ
  pub input_max_length : ℕ
  pub no_broker : Bool
  pub broker_port : ℕ
  pub spawn_client : Bool
  pub client_port : ℕ

unfoldable pub check_options : FuzzerOptions → Outcome LibaflError (Unit {0})
check_options options = elim (options.seed.vals) [
  | none ↦ ok tt
  | some vals ↦
      if ltb (length vals) (length options.cores)
      then err (
          illegal_argument (
            codes "Invalid seed size! Please, provide "
            ++ to_string (length options.cores)
            ++ codes " unique seeds"))
      else ok tt
]

-- `options.cores.ids.iter().zip(vals.iter()).find(|(core, _)| core == core_id)`, the seed of the pair.
pub find_seed : ℕ → List ℕ → List ℕ → Option ℕ
find_seed core_id [] vals = none
find_seed core_id (core ∷ cores) [] = none
find_seed core_id (core ∷ cores) (seed ∷ vals) =
    if core == core_id then some seed else find_seed core_id cores vals

-- The argument of `StdRand::with_seed`: `nanos` is `current_nanos()`, and a core without a seed
-- panics.
unfoldable pub client_seed : FuzzerOptions → ℕ → ℕ → Outcome LibaflError ℕ
unfolding find_seed
client_seed options nanos core_id = elim (options.seed.vals) [
  | none ↦ ok nanos
  | some vals ↦ elim (find_seed core_id options.cores vals) [ none ↦ panic | some seed ↦ ok seed ]
]

-- `Duration::from_millis(src.parse()?)`, in milliseconds.
unfoldable pub parse_timeout : Bytes → Outcome LibaflError ℕ
parse_timeout src = map_err parse (parse_u64 src)

-- The options of a command line that names only the binary, by the `default_value` attributes, after
-- their parsers.
abbrev pub default_options : Bytes → FuzzerOptions
default_options executable = record {
  executable = executable;
  args = [];
  cores = 0 ∷ [];
  core_args_config = none;
  stdout = none;
  seed = record { cmdline = codes "auto"; vals = none };
  timeout = 1000;
  tokens = [];
  debug_child = false;
  input = none;
  output = codes "solutions/";
  queue = codes "corpus_discovered/";
  generate_count = 20;
  input_max_length = 4096;
  no_broker = false;
  broker_port = 1337;
  spawn_client = false;
  client_port = 7878;
}
