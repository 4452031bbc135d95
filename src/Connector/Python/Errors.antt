-- ===== src/Connector/Python/Errors.antt =====
-- Which exception Python sees.
use nn_fuzz.Base.{◌<◌, ◌≡◌, List, [], ◌∷◌, ◌++◌, length, arith}
use nn_fuzz.Base.Text.{Bytes, codes}
use nn_fuzz.Base.Outcome.{err}
use nn_fuzz.Std.Net.{Socket, IoError, Arrival, fault, arrivals}
use nn_fuzz.Std.Net.Laws.{read_exact_fault, read_exact_short}
use nn_fuzz.External.{Codec, Gzip, Libafl}
use nn_fuzz.Messages.{TcpRemoteNewMessage, Event}
use nn_fuzz.Connector.Events.{recv_event, recv_testcase}
use nn_fuzz.Connector.Python.{timeout_error, recv_input}
use nn_fuzz.Connector.Frame

module _ (io_text : IoError → Bytes) (L : Libafl) (events : Codec (Event L)) (g : Gzip)
    (messages : Codec TcpRemoteNewMessage) where
  -- Every failure of the connection while no more than a part of a message's length has arrived is
  -- raised as a timeout, whatever its kind.
  recv_input_fault :
      (head : Bytes) (e : IoError) (rest : List Arrival) (s : Socket)
      → length head < 4
      → s.incoming ≡ arrivals head ++ fault e ∷ rest
      → recv_input io_text L events g messages s
        ≡ (err (timeout_error (codes "read timeout expired")), record s { incoming = rest })
  unfolding recv_input recv_testcase recv_event Frame.recv_tcp_msg
  recv_input_fault head e rest s h hs = ground (arith, read_exact_fault head e rest 4 s h hs)

  -- Once the fuzzer has closed the connection and nothing is left to read, a receive raises a
  -- timeout and changes nothing.
  recv_input_closed :
      (s : Socket)
      → s.incoming ≡ []
      → recv_input io_text L events g messages s
        ≡ (err (timeout_error (codes "read timeout expired")), s)
  unfolding recv_input recv_testcase recv_event Frame.recv_tcp_msg
  recv_input_closed s hs = ground (arith, read_exact_short [] 4 s (omega arith) hs)
