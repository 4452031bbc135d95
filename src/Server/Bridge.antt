-- ===== src/Server/Bridge.antt =====
-- nn_fuzz/src/connector/server.rs: `NnConnector`, which passes messages between the fuzzers' LLMP
-- and one neural network.
pub mod Forward
pub mod Relay
pub mod Rounds
pub mod Bus
use nn_fuzz.Base.{
  ℕ, zero, suc, ◌==◌, ◌⊎◌, inl, inr, List, [], ◌∷◌, ◌++◌, Option, none, some, true, false,
}
use nn_fuzz.Base.Bits.{bit_or}
use nn_fuzz.Base.Text.{Bytes}
use nn_fuzz.Base.Outcome.{Outcome, ok, err, panic}
use nn_fuzz.Base.Action.{Action, ◌>>◌, pure}
use nn_fuzz.Std.Net.{Socket, IoError}
use nn_fuzz.External.{Codec, LibaflError}
use nn_fuzz.Messages.{TcpRemoteNewMessage, llmp_flag_from_nn, try_from}
use nn_fuzz.Server.Frame.{send_tcp_msg, recv_tcp_msg}

-- What a call of `LlmpClient::recv_buf_with_flags` answers: an error, nothing new, or a message.
abbrev pub Received : Type 0
Received = LibaflError ⊎ Option TcpRemoteNewMessage

-- A call of `LlmpClient::send_buf_with_flags`.
pub record LlmpSend : Type 0 where
  pub tag : ℕ
  pub flags : ℕ
  pub payload : Bytes

-- The bridge and what its LLMP client will answer: `inbox` to the coming receives and `replies` to
-- the coming sends. At the end of `inbox` nothing new comes; at the end of `replies` sends succeed.
pub record Bridge : Type 0 where
  pub stream : Socket
  pub inbox : List Received
  pub replies : List (LibaflError ⊎ Unit {0})
  pub outbox : List LlmpSend

abbrev pub Step : Type 0
Step = Action Bridge LibaflError (Unit {0})

module _ (messages : Codec TcpRemoteNewMessage) (id : ℕ) where
  -- The inner `while let`: forwards what LLMP has, but not the bridge's own messages.
  unfoldable pub forward :
      List Received → Socket → Outcome LibaflError (Unit {0}) × List Received × Socket
  forward [] s = (ok tt, [], s)
  forward (inl _ ∷ more) s = (panic, more, s)
  forward (inr none ∷ more) s = (ok tt, more, s)
  forward (inr (some m) ∷ more) s = elim (m.client_id == id) [
    | true ↦ forward more s
    | false ↦
        let (r, s') = send_tcp_msg messages m s in
        elim r [ ok _ ↦ forward more s' | err _ ↦ (panic, more, s') | panic ↦ (panic, more, s') ]
  ]

  abbrev pub forward_all : Step
  forward_all b =
      let (r, inbox, stream) = forward b.inbox b.stream in
      (r, record b { inbox = inbox; stream = stream })

  -- `send_buf_with_flags(…).expect(…)`
  abbrev pub send_buf : LlmpSend → Step
  send_buf m b = elim b.replies [
    | [] ↦ (ok tt, record b { outbox = b.outbox ++ m ∷ [] })
    | inr _ ∷ more ↦ (ok tt, record b { outbox = b.outbox ++ m ∷ []; replies = more })
    | inl _ ∷ more ↦ (panic, record b { replies = more })
  ]

  -- A message of the network goes to LLMP with the mark of its origin.
  abbrev pub relay : Bytes → Step
  relay val b = elim (try_from messages val) [
    | inl _ ↦ (panic, b)
    | inr msg ↦
        send_buf
          (record {
            tag = msg.tag;
            flags = bit_or msg.flags llmp_flag_from_nn;
            payload = msg.payload;
          })
          b
  ]

  -- The second half of the loop: an error of the receive is ignored.
  unfoldable pub receive_one : Step
  receive_one b =
      let (r, stream) = recv_tcp_msg b.stream in
      let b' = record b { stream = stream } in
      elim r [ ok val ↦ relay val b' | err _ ↦ (ok tt, b') | panic ↦ (panic, b') ]

  unfoldable pub round : Step
  unfolding forward receive_one
  round = do forward_all; receive_one

  -- `handle_connection` for a number of rounds of its endless loop; `timeout` is what
  -- `set_read_timeout` answers.
  unfoldable pub rounds : ℕ → Step
  rounds zero = pure tt
  rounds (suc n) = do round; rounds n

  unfoldable pub handle_connection : IoError ⊎ Unit {0} → ℕ → Step
  unfolding rounds
  handle_connection (inl _) n b = (panic, b)
  handle_connection (inr _) n b = rounds n b
