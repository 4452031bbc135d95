-- ===== src/Connector/Python.antt =====
-- nn_connector/src/lib.rs: the methods that Python sees, and the exceptions that they raise.
pub mod Errors
use nn_fuzz.Base.{ℕ, ◌⊎◌, Bool, true, List}
use nn_fuzz.Base.Text.{Bytes, codes}
use nn_fuzz.Base.Outcome.{Outcome, ok, err, panic, map_err}
use nn_fuzz.Base.Action.{Action}
use nn_fuzz.Std.Net.{IoError, Socket}
use nn_fuzz.External.{Codec, Gzip, Libafl}
use nn_fuzz.Messages.{TcpRemoteNewMessage, TcpRequest, TcpResponce, Event}
use nn_fuzz.Connector.Error.{Error, not_available, serialize_error, display}
use nn_fuzz.Connector.Connect
use nn_fuzz.Connector.Connect.{FuzzConnector}
use nn_fuzz.Connector.Events

pub data PyErr : Type 0 where
  runtime_error timeout_error : Bytes → PyErr

-- The match of `recv_input`.
unfoldable pub recv_error : Error → PyErr
recv_error not_available = timeout_error (codes "read timeout expired")
recv_error (serialize_error msg) = timeout_error msg
recv_error e = runtime_error (display e)

unfoldable pub id : FuzzConnector → ℕ
unfolding Connect.id
id = Connect.id

module _ (io_text : IoError → Bytes) where
  unfoldable pub new :
      Codec TcpRequest
      → Codec TcpResponce
      → ℕ
      → IoError ⊎ Socket
      → IoError ⊎ Unit {0}
      → Outcome PyErr FuzzConnector
  unfolding display
  new requests responces port connected timeout =
      map_err (λ e. runtime_error (display e))
        (Connect.new io_text requests responces port connected timeout)

  module _ (L : Libafl) (events : Codec (Event L)) (g : Gzip)
      (messages : Codec TcpRemoteNewMessage) where
    unfoldable pub send_input : ℕ → Bytes → Action Socket PyErr Bool
    unfolding display
    send_input client_id input s =
        let (r, s') = Events.send_input L events g io_text messages client_id input s in
        (elim r [ ok _ ↦ ok true | err e ↦ err (runtime_error (display e)) | panic ↦ panic ], s')

    unfoldable pub recv_input : Action Socket PyErr (List (Bytes × Bytes))
    unfolding recv_error
    recv_input s =
        let (r, s') = Events.recv_testcase L events g io_text messages s in
        (map_err recv_error r, s')
