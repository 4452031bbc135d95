-- ===== src/Server/Bridge/Bus.antt =====
-- Several bridges of nn_fuzz/src/connector/server.rs on one LLMP, in any interleaving, with the broker
-- of nn_fuzz/src/llmp/extention.rs. What a client sends waits until the broker takes it; the broker
-- takes each client's messages in their order, runs its hook, and hands a message that it forwards to
-- all clients, the sender among them, in one order: the steps of this relation are what that allows.
pub mod Order
pub mod Own
pub mod Broker
pub mod Fifo
pub mod Hearing
pub mod Feeding
pub mod Networks
pub mod Events
pub mod Fuzzers
pub mod Progress
pub mod Delivery
use nn_fuzz.Base.{
  ℕ, ◌==◌, ◌≡◌, inr, List, [], ◌∷◌, ◌++◌, some, Bool, true, false, map, All, filter, if◌then◌else◌,
}
use nn_fuzz.Base.Outcome.{ok}
use nn_fuzz.Std.Net.{Arrival}
use nn_fuzz.External.{Codec, Gzip, Libafl}
use nn_fuzz.Messages.{TcpRemoteNewMessage, Event}
use nn_fuzz.Llmp.{Flags}
use nn_fuzz.Llmp.Broker.{MonitorCall, LlmpMsgHookResult, forward_to_clients, hook}
use nn_fuzz.Server.Bridge.{Bridge, LlmpSend, forward_all, receive_one}
use nn_fuzz.Wire.{IsByte}

-- The bridge of each client and what it has sent that the broker has not taken yet; and the broker:
-- what it has taken, what of it it has forwarded, and its calls of the monitor.
pub record Bus (L : Libafl) : Type 0 where
  pub bridge : ℕ → Bridge
  pub pending : ℕ → List LlmpSend
  pub seen : List TcpRemoteNewMessage
  pub log : List TcpRemoteNewMessage
  pub monitored : List (MonitorCall L)

abbrev pub update {ℓ} : {A : Type ℓ} → (ℕ → A) → ℕ → A → ℕ → A
update g id a i = if id == i then a else g i

-- A client's message as LLMP hands it to the clients.
abbrev pub broadcast : ℕ → LlmpSend → TcpRemoteNewMessage
broadcast client_id m = record {
  client_id = client_id;
  tag = m.tag;
  flags = m.flags;
  payload = m.payload;
}

abbrev pub sent_by : ℕ → List TcpRemoteNewMessage → List TcpRemoteNewMessage
sent_by id = filter (λ m. m.client_id == id)

-- What LLMP makes of a message, by what the hook says.
abbrev pub passed : LlmpMsgHookResult → TcpRemoteNewMessage → List TcpRemoteNewMessage
passed forward_to_clients m = m ∷ []
passed LlmpMsgHookResult.handled m = []

-- A bridge whose network sends more.
abbrev pub hearing : List Arrival → Bridge → Bridge
hearing more b = record b { stream = record (b.stream) { incoming = b.stream.incoming ++ more } }

module _ {L : Libafl} where
  abbrev pub set_bridge : ℕ → Bridge → Bus L → Bus L
  set_bridge id b s = record s { bridge = update (s.bridge) id b }

  abbrev pub arrive : ℕ → List Arrival → Bus L → Bus L
  arrive id more s = set_bridge id (hearing more (s.bridge id)) s

  abbrev pub submit : ℕ → List LlmpSend → Bus L → Bus L
  submit id new s = record s { pending = update (s.pending) id (s.pending id ++ new) }

  abbrev pub deliver : List TcpRemoteNewMessage → Bus L → Bus L
  deliver ms s = record s {
    log = s.log ++ ms;
    bridge = λ i. record (s.bridge i) { inbox = (s.bridge i).inbox ++ map (λ m. inr (some m)) ms };
  }

  -- The broker has taken a message of a client, which has `rest` left.
  abbrev pub take_first :
      ℕ → LlmpSend → List LlmpSend → LlmpMsgHookResult → List (MonitorCall L) → Bus L → Bus L
  take_first id m rest result calls s = deliver (passed result (broadcast id m)) (record s {
    pending = update (s.pending) id rest;
    seen = s.seen ++ broadcast id m ∷ [];
    monitored = calls;
  })

  -- `running` says which clients are bridges.
  module _ (messages : Codec TcpRemoteNewMessage) (f : Flags) (events : Codec (Event L)) (g : Gzip)
      (running : ℕ → Bool) where
    pub data Step (s : Bus L) : Bus L → Type 0 where
      -- A client that is no bridge, such as a fuzzer, sends a message.
      sends : (id : ℕ) (m : LlmpSend) → running id ≡ false → Step s (submit id (m ∷ []) s)
      -- A network's bytes reach its bridge, or a read of the bridge is going to fail.
      arrives : (id : ℕ) (more : List Arrival) → All IsByte more → Step s (arrive id more s)
      -- The first half of a bridge's round.
      forwards :
          (id : ℕ) (b : Bridge)
          → running id ≡ true
          → forward_all messages id (s.bridge id) ≡ (ok tt, b)
          → Step s (set_bridge id b s)
      -- The second half.
      receives :
          (id : ℕ) (b : Bridge) (new : List LlmpSend)
          → running id ≡ true
          → receive_one messages id (s.bridge id) ≡ (ok tt, b)
          → b.outbox ≡ (s.bridge id).outbox ++ new
          → Step s (submit id new (set_bridge id b s))
      -- The broker takes a message, and its hook does not fail.
      brokers :
          (id : ℕ) (m : LlmpSend) (rest : List LlmpSend) (result : LlmpMsgHookResult)
          (calls : List (MonitorCall L))
          → s.pending id ≡ m ∷ rest
          → hook f events g id m.tag m.flags m.payload s.monitored ≡ (ok result, calls)
          → Step s (take_first id m rest result calls s)

    pub data Reach (s : Bus L) : Bus L → Type 0 where
      here : Reach s s
      next : {t u : Bus L} → Reach s t → Step t u → Reach s u

-- Nothing has happened yet but on the streams of the networks.
pub record IsFresh {L : Libafl} (s : Bus L) : Type 0 where
  pub no_log : s.log ≡ []
  pub none_seen : s.seen ≡ []
  pub none_pending : (id : ℕ) → s.pending id ≡ []
  pub no_inbox : (id : ℕ) → (s.bridge id).inbox ≡ []
  pub no_outbox : (id : ℕ) → (s.bridge id).outbox ≡ []
  pub unwritten : (id : ℕ) → (s.bridge id).stream.written ≡ []
  pub bytes : (id : ℕ) → All IsByte (s.bridge id).stream.incoming
