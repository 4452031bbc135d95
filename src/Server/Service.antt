-- ===== src/Server/Service.antt =====
-- nn_fuzz/src/connector/server.rs: `run_service`, the loop that accepts connections.
pub mod Loop
use nn_fuzz.Base.{ℕ, ◌⊎◌, inl, inr, List, [], ◌∷◌, ◌++◌, Bool, true, false}
use nn_fuzz.Base.Text.{Bytes}
use nn_fuzz.Base.Outcome.{ok, err, panic}
use nn_fuzz.Std.Net.{Socket}
use nn_fuzz.External.{Codec}
use nn_fuzz.Messages.{
  TcpRequest, TcpResponce, remote_fuzzer_hello, remote_nn_hello, local_hello, try_from,
}
use nn_fuzz.Server.Frame.{send_tcp_message, recv_tcp_message}

abbrev pub map_size : ℕ
map_size = 65536

-- `Listener::accept`: a failed accept is `empty`.
pub data ListenerStream : Type 0 where
  tcp : Socket → ListenerStream
  empty : ListenerStream

unfoldable pub accept {ℓ} : {E : Type ℓ} → E ⊎ Socket → ListenerStream
accept (inr stream) = tcp stream
accept (inl _) = empty

pub record NnDescription : Type 0 where
  pub nn_name : Bytes
  pub nn_version : Bytes

abbrev pub hello : TcpResponce
hello = remote_fuzzer_hello (record { ec_size = map_size; instances = 0; fuzz_target = [] })

-- How one round of the loop ends: with the next round, with a task for the connection and the next
-- round, or with a panic, which ends the service.
pub data Round : Type 0 where
  continue : Socket → Round
  spawn : NnDescription → Socket → Round
  crash : Round

abbrev dispatch : TcpRequest → Socket → Round
dispatch (remote_nn_hello nn_name nn_version) s =
    spawn (record { nn_name = nn_name; nn_version = nn_version }) s
dispatch (local_hello _) s = crash

module _ (requests : Codec TcpRequest) (responces : Codec TcpResponce) where
  abbrev receive : Socket → Round
  receive s =
      let (r, s') = recv_tcp_message s in
      elim r [
        | ok buf ↦ elim (try_from requests buf) [ inl _ ↦ continue s' | inr req ↦ dispatch req s' ]
        | err _ ↦ continue s'
        | panic ↦ crash
      ]

  -- One accepted connection, up to the task that is spawned for it.
  unfoldable pub welcome : Socket → Round
  welcome s =
      let (r, s') = send_tcp_message responces hello s in
      elim r [ ok _ ↦ receive s' | err _ ↦ continue s' | panic ↦ crash ]

  -- The loop over the connections as they come, with the tasks spawned so far; the second part says
  -- whether the loop still runs.
  unfoldable pub run_service :
      List ListenerStream → List (NnDescription × Socket) → List (NnDescription × Socket) × Bool
  unfolding welcome
  run_service [] tasks = (tasks, true)
  run_service (empty ∷ more) tasks = run_service more tasks
  run_service (tcp stream ∷ more) tasks = elim (welcome stream) [
    | continue _ ↦ run_service more tasks
    | spawn desc s ↦ run_service more (tasks ++ (desc, s) ∷ [])
    | crash ↦ (tasks, false)
  ]
