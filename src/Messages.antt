-- ===== src/Messages.antt =====
-- nn_fuzz/src/connector/messages.rs: the messages between fuzzer and network, and the flags; and
-- the events of LibAFL as nn_fuzz/src/llmp/extention.rs takes them apart.
use nn_fuzz.Base.{ℕ, ◌⊎◌, Option}
use nn_fuzz.Base.Text.{Bytes}
use nn_fuzz.External.{Codec, Libafl}

abbrev pub llmp_flag_initialized : ℕ
llmp_flag_initialized = 0x0

abbrev pub llmp_flag_from_nn : ℕ
llmp_flag_from_nn = 0x4

abbrev pub llmp_flag_compressed : ℕ
llmp_flag_compressed = 0x1

abbrev pub compress_threshold : ℕ
compress_threshold = 1024

pub record TcpRemoteNewMessage : Type 0 where
  pub client_id : ℕ
  pub tag : ℕ
  pub flags : ℕ
  pub payload : Bytes

pub record FuzzerDescription : Type 0 where
  pub ec_size : ℕ
  pub instances : ℕ
  pub fuzz_target : Bytes

pub data TcpResponce : Type 0 where
  remote_fuzzer_hello : FuzzerDescription → TcpResponce
  remote_nn_accepted : ℕ → TcpResponce
  error : Bytes → TcpResponce

pub data TcpRequest : Type 0 where
  remote_nn_hello : Bytes → Bytes → TcpRequest
  local_hello : ℕ → TcpRequest

-- The six `TryFrom` implementations: each is `postcard::from_bytes` at its type.
abbrev pub try_from : {T : Type 0} → Codec T → Bytes → Bytes ⊎ T
try_from c bytes = c.from_bytes bytes

-- `libafl::events::Event`. Durations are in milliseconds.
pub data Event (L : Libafl) : Type 0 where
  new_testcase :
      (input : L.Input) (observers_buf : Option Bytes) (exit_kind : L.ExitKind) (corpus_size : ℕ)
      (client_config : L.EventConfig) (time : ℕ) (executions : ℕ)
      → Event L
  update_exec_stats : (time : ℕ) (executions : ℕ) → Event L
  update_user_stats : (name : Bytes) (value : L.UserStats) → Event L
  objective : (objective_size : ℕ) → Event L
  log : (severity_level : L.LogSeverity) (message : Bytes) → Event L
  custom_buf : L.CustomBuf → Event L
