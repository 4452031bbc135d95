-- ===== src/External.antt =====
-- The third-party code that the program calls: LibAFL's types and errors, the postcard codec and the
-- gzip compressor. Types are parameters; laws state what the code relies on.
use nn_fuzz.Base.{ℕ, ◌≡◌, ◌⊎◌, inl, inr, Option, some, Bool}
use nn_fuzz.Base.Text.{Bytes}
use nn_fuzz.Base.Outcome.{ok, err}
use nn_fuzz.Base.Action.{Action}
use nn_fuzz.Std.Net.{IoError}
use nn_fuzz.Std.Decimal.{ParseIntError}

-- The variants of `libafl::Error` that the source constructs or matches, one for each `From`
-- conversion that `?` applies, and one for the rest.
pub data LibaflError : Type 0 where
  illegal_argument illegal_state compression serialize unsupported : Bytes → LibaflError
  file : IoError → LibaflError
  parse : ParseIntError → LibaflError
  shutting_down : LibaflError

-- A fallible call of foreign code returns an error or a value; `?` with the error's conversion.
abbrev pub try {ℓ κ μ ν} :
    {S : Type ℓ} {E : Type κ} {F : Type μ} {A : Type ν} → (E → F) → E ⊎ A → Action S F A
try f (inl e) s = (err (f e), s)
try f (inr a) s = (ok a, s)

-- `postcard::to_allocvec` and `postcard::from_bytes` at one type; an error is known by its text.
pub record Codec (T : Type 0) : Type 0 where
  pub to_allocvec : T → Bytes ⊎ Bytes
  pub from_bytes : Bytes → Bytes ⊎ T

-- Deserializing what was serialized gives the value back.
pub record IsCodec {T : Type 0} (c : Codec T) : Type 0 where
  pub from_bytes-to_allocvec :
      (v : T) (bs : Bytes) → c.to_allocvec v ≡ inr bs → c.from_bytes bs ≡ inr v

-- `GzipCompressor`: its threshold comes first, and it answers `none` below that.
pub record Gzip : Type 0 where
  pub compress : ℕ → Bytes → LibaflError ⊎ Option Bytes
  pub decompress : Bytes → LibaflError ⊎ Bytes

-- Decompressing what was compressed gives the buffer back.
pub record IsGzip (g : Gzip) : Type 0 where
  pub decompress-compress :
      (t : ℕ) (bs z : Bytes) → g.compress t bs ≡ inr (some z) → g.decompress z ≡ inr bs

-- LibAFL's types that the program passes on, and the values of them that it names.
pub record Libafl : Type 1 where
  pub Input : Type 0
  pub ExitKind : Type 0
  pub EventConfig : Type 0
  pub UserStats : Type 0
  pub LogSeverity : Type 0
  pub CustomBuf : Type 0
  -- `LlmpClientDescription`
  pub Description : Type 0
  -- `ExitKind::Ok`
  pub exit_ok : ExitKind
  -- `EventConfig::AlwaysUnique`, and `==` on configurations
  pub always_unique : EventConfig
  pub is_always_unique : EventConfig → Bool
  -- `UserStats::Number`
  pub number : ℕ → UserStats
  -- `BytesInput::from` and `bytes`
  pub from_buf : Bytes → Input
  pub input_bytes : Input → Bytes
