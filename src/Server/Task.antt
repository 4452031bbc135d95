-- ===== src/Server/Task.antt =====
-- nn_fuzz/src/connector/server.rs: the task that `run_service` spawns for a network, with
-- `transform_stream` and `NnConnector::new`.
use nn_fuzz.Base.{ℕ, ◌⊎◌, inl, inr}
use nn_fuzz.Base.Outcome.{Outcome, ok, err, panic}
use nn_fuzz.Std.Net.{IoError}
use nn_fuzz.External.{Codec, LibaflError}
use nn_fuzz.Messages.{TcpRemoteNewMessage, TcpResponce, remote_nn_accepted}
use nn_fuzz.Server.Frame.{send_tcp_msg}
use nn_fuzz.Server.Bridge.{Bridge, handle_connection}

-- An answer of a call that returns nothing.
abbrev pub Answer : Type 0 → Type 0
Answer E = E ⊎ Unit {0}

-- `transform_stream`, by what `into_std` and `set_nonblocking` answer.
unfoldable pub transform_stream : Answer IoError → Answer IoError → Outcome IoError (Unit {0})
transform_stream (inl e) blocking = err e
transform_stream (inr _) (inl e) = err e
transform_stream (inr _) (inr _) = ok tt

-- `LlmpConnection`: a client is known by its identifier.
pub data LlmpConnection : Type 0 where
  is_client : ℕ → LlmpConnection
  is_broker : LlmpConnection

-- `NnConnector::new`, by what `LlmpConnection::client_on_port` answers; a broker is `unreachable!()`.
unfoldable pub new : LibaflError ⊎ LlmpConnection → Outcome LibaflError ℕ
new (inl e) = err e
new (inr (is_client id)) = ok id
new (inr is_broker) = panic

-- What the task meets before it can serve: the stream's conversions, the shared memory, the broker's
-- port and `set_read_timeout`.
pub record Setting : Type 0 where
  pub into_std : Answer IoError
  pub set_nonblocking : Answer IoError
  pub shmem_provider : Answer LibaflError
  pub client_on_port : LibaflError ⊎ LlmpConnection
  pub set_read_timeout : Answer IoError

module _ (messages : Codec TcpRemoteNewMessage) (responces : Codec TcpResponce) where
  -- A failure to send the acceptance is only printed.
  unfoldable pub accept_and_serve :
      Answer IoError → ℕ → ℕ → Bridge → Outcome LibaflError (Unit {0}) × Bridge
  accept_and_serve timeout n id b =
      let (r, s') = send_tcp_msg responces (remote_nn_accepted id) b.stream in
      let b' = record b { stream = s' } in
      elim r [
        | ok _ ↦ handle_connection messages id timeout n b'
        | err _ ↦ handle_connection messages id timeout n b'
        | panic ↦ (panic, b')
      ]

  -- The task, for `n` rounds of the bridge's endless loop; `b` holds its stream and LLMP's answers.
  unfoldable pub nn_task : Setting → ℕ → Bridge → Outcome LibaflError (Unit {0}) × Bridge
  unfolding transform_stream new accept_and_serve
  nn_task at n b = elim (transform_stream at.into_std at.set_nonblocking) [
    | err _ ↦ (panic, b)
    | panic ↦ (panic, b)
    | ok _ ↦ elim at.shmem_provider [
      | inl e ↦ (err e, b)
      | inr _ ↦ elim (new at.client_on_port) [
        | ok id ↦ accept_and_serve at.set_read_timeout n id b
        | err e ↦ (err e, b)
        | panic ↦ (panic, b)
      ]
    ]
  ]
