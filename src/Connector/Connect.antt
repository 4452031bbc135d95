-- ===== src/Connector/Connect.antt =====
-- nn_connector/src/connector.rs: `connect_to_fuzzer` and `FuzzConnector::new`.
use nn_fuzz.Base.{ℕ, ◌⊎◌, inl, inr}
use nn_fuzz.Base.Text.{Bytes, codes}
use nn_fuzz.Base.Outcome.{Outcome, ok, err}
use nn_fuzz.Base.Action.{◌>>=◌, ◌>>◌, throw, pure}
use nn_fuzz.Std.Net.{IoError, Socket}
use nn_fuzz.External.{Codec, try}
use nn_fuzz.Messages.{
  TcpRequest, TcpResponce, remote_fuzzer_hello, remote_nn_accepted, remote_nn_hello, try_from,
}
use nn_fuzz.Connector.Error.{Error, serialize_error, illegal_state, from_io}
use nn_fuzz.Connector.Frame.{Io, send_tcp_msg, recv_tcp_msg}

abbrev check_hello : TcpResponce → Io (Unit {0})
check_hello (remote_fuzzer_hello _) = pure tt
check_hello _ = throw (illegal_state (codes "incorrent hello message"))

abbrev accepted_id : TcpResponce → Io ℕ
accepted_id (remote_nn_accepted client_id) = pure client_id
accepted_id _ = throw (illegal_state (codes "got incorrent message while wait for accepting"))

abbrev pub hello_msg : TcpRequest
hello_msg = remote_nn_hello (codes "markov_chain") (codes "1.0")

-- `FuzzConnector`, without its compressor, which has no state.
pub record FuzzConnector : Type 0 where
  pub client_id : ℕ
  pub stream : Socket
  pub port : ℕ

-- `FuzzConnector::id`
unfoldable pub id : FuzzConnector → ℕ
id c = c.client_id

module _ (io_text : IoError → Bytes) (requests : Codec TcpRequest)
    (responces : Codec TcpResponce) where
  -- The part of `connect_to_fuzzer` behind the connection; `timeout` is what `set_read_timeout`
  -- answers.
  unfoldable pub handshake : IoError ⊎ Unit {0} → Io ℕ
  handshake timeout = do
    -- 1 - receive hello from fuzzer
    buf ← recv_tcp_msg io_text
    msg ←
        try (λ _. serialize_error (codes "Hello message serialize error")) (try_from responces buf)
    check_hello msg
    -- 2 - send hello from us
    send_tcp_msg io_text requests hello_msg
    -- 3 - wait for accepting
    buf ← recv_tcp_msg io_text
    msg ←
        try (λ _. serialize_error (codes "Accept message serialize error")) (try_from responces buf)
    client_id ← accepted_id msg
    try (from_io io_text) timeout
    pure client_id

  -- `FuzzConnector::new`; `connected` is what `TcpStream::connect` answers.
  unfoldable pub new : ℕ → IoError ⊎ Socket → IoError ⊎ Unit {0} → Outcome Error FuzzConnector
  unfolding handshake
  new port (inl e) timeout = err (from_io io_text e)
  new port (inr stream) timeout =
      let (r, s) = handshake timeout stream in
      elim r [
        | ok id ↦ ok (record { client_id = id; stream = s; port = port })
        | err e ↦ err e
        | Outcome.panic ↦ Outcome.panic
      ]
