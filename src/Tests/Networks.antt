-- ===== src/Tests/Networks.antt =====
-- Runs with two networks.
use nn_fuzz.Base.{
  ℕ, ◌==◌, ◌≡◌, refl, arith, Bool-cases, inl, inr, List, [], ◌∷◌, ◌++◌, none, some, Bool, ◌||◌, map,
  length,
}
use nn_fuzz.Base.Text.{Bytes, codes}
use nn_fuzz.Base.Outcome.{ok}
use nn_fuzz.Std.Net.{
  fault, would_block, arrivals, write_all, to_be_bytes, read_exact, from_be_bytes,
}
use nn_fuzz.Messages.{TcpRemoteNewMessage}
use nn_fuzz.Server.Frame as Frame
use nn_fuzz.Server.Bridge.{Bridge, LlmpSend, forward, receive_one}
use nn_fuzz.Server.Bridge.Forward.{foreign, Frames, receive_many}
use nn_fuzz.Server.Bridge.Rounds.{messages_of}
use nn_fuzz.Server.Bridge.Bus.{
  Bus, arrive, update, broadcast, submit, set_bridge, take_first, sent_by, Reach, here, next, sends,
  forwards, receives, brokers, IsFresh,
}
use nn_fuzz.Server.Bridge.Bus.Fifo.{Thins, networks_in_order}
use nn_fuzz.Server.Bridge.Bus.Feeding.{Feeds, begins, moves, hears}
use nn_fuzz.Server.Bridge.Bus.Networks.{received_from, network_reads_network}
use nn_fuzz.Server.Bridge.Bus.Progress.{Reaches}
use nn_fuzz.Server.Bridge.Bus.Delivery.{bus_delivers}
use nn_fuzz.Server.Bridge.Rounds.Delivery.{Signal, sent, pause, messages_sent, Carries}
use nn_fuzz.Server.Bridge.Bus.Order.{bridges_keep_order}
use nn_fuzz.Connector.Events.{send_input, recv_testcase, generate_event}
use nn_fuzz.Connector.Frame as Client
use nn_fuzz.Llmp.{Flags}
use nn_fuzz.Llmp.Broker.{forward_to_clients, hook}
use nn_fuzz.Journey.Networks.{network_reaches_network}
use nn_fuzz.Tests.Sample.{
  text, messages, messages-IsCodec, bytes, events, events-IsCodec, gzip, gzip-IsGzip, socket,
}

abbrev flags : Flags
flags = record { initialized = 0; compressed = 1; of_send_buf = 0 }

-- The frame of the input 65 of client 7, and of the message that bridge 8 makes of it.
abbrev input_frame : Bytes
input_frame = 0 ∷ 0 ∷ 0 ∷ 8 ∷ 7 ∷ 0 ∷ 0 ∷ 0 ∷ 0 ∷ 1 ∷ 0 ∷ 65 ∷ []

abbrev marked_frame : Bytes
marked_frame = 0 ∷ 0 ∷ 0 ∷ 8 ∷ 7 ∷ 0 ∷ 4 ∷ 0 ∷ 0 ∷ 1 ∷ 0 ∷ 65 ∷ []

abbrev handed : LlmpSend
handed = record { tag = 0; flags = 4; payload = 0 ∷ 0 ∷ 1 ∷ 0 ∷ 65 ∷ [] }

abbrev bridge : Bytes → List LlmpSend → Bridge
bridge incoming outbox = record {
  stream = socket (arrivals incoming);
  inbox = [];
  replies = [];
  outbox = outbox;
}

network_reaches_network_example :
    (hook flags events gzip 7 0 4 (0 ∷ 0 ∷ 1 ∷ 0 ∷ 65 ∷ []) [] ≡ (ok forward_to_clients, []))
    × (forward messages 7 (inr (some (broadcast 7 handed)) ∷ inr none ∷ []) (socket [])
        ≡ (ok tt, [], socket []))
    × (recv_testcase bytes events gzip text messages (socket (arrivals marked_frame))
        ≡ (ok ((codes "input", 65 ∷ []) ∷ (codes "observers", []) ∷ []), socket []))
unfolding send_input generate_event Client.send_tcp_msg receive_one Frame.recv_tcp_msg forward
    Frame.send_tcp_msg write_all to_be_bytes read_exact from_be_bytes
network_reaches_network_example =
    network_reaches_network events gzip messages text events-IsCodec gzip-IsGzip messages-IsCodec
      (λ bs. refl) flags 7 7 8 (65 ∷ []) (socket [])
      (record { incoming = []; written = input_frame; capacity = 988 }) (socket [])
      (record { incoming = []; written = marked_frame; capacity = 988 }) (socket [])
      (socket (arrivals marked_frame)) (bridge input_frame []) (bridge [] (handed ∷ [])) [] []
      handed [] refl (record { bytes = input_frame; sent = refl; arrived = refl }) refl refl refl
      refl refl (record { bytes = marked_frame; sent = refl; arrived = refl })

-- Clients 7 and 8 are bridges.
abbrev running : ℕ → Bool
running id = id == 7 || id == 8

abbrev fresh : Bus bytes
fresh = record {
  bridge = update (λ _. bridge [] []) 7 (bridge input_frame []);
  pending = λ _. [];
  seen = [];
  log = [];
  monitored = [];
}

abbrev from_three : LlmpSend
from_three = record { tag = 5; flags = 1; payload = 9 ∷ 8 ∷ [] }

-- Bridge 7 has heard its network, and client 3 has sent a message; then the broker takes both.
abbrev waiting : Bus bytes
waiting =
    submit 3 (from_three ∷ [])
      (submit 7 (handed ∷ []) (set_bridge 7 (bridge [] (handed ∷ [])) fresh))

abbrev busy : Bus bytes
busy =
    take_first 3 from_three [] forward_to_clients []
      (take_first 7 handed [] forward_to_clients [] waiting)

abbrev told : Bridge
told = record {
  stream = record {
    incoming = [];
    written = marked_frame ++ 0 ∷ 0 ∷ 0 ∷ 5 ∷ 3 ∷ 5 ∷ 1 ∷ 9 ∷ 8 ∷ [];
    capacity = 979;
  };
  inbox = [];
  replies = [];
  outbox = [];
}

abbrev last : Bus bytes
last = set_bridge 8 told busy

reached : Reach messages flags events gzip running fresh last
unfolding hook receive_one Frame.recv_tcp_msg forward Frame.send_tcp_msg write_all to_be_bytes
    read_exact from_be_bytes
reached =
    next
      (next
        (next
          (next (next here (receives 7 (bridge [] (handed ∷ [])) (handed ∷ []) refl refl refl))
            (sends 3 from_three refl))
          (brokers 7 handed [] forward_to_clients [] refl refl))
        (brokers 3 from_three [] forward_to_clients [] refl refl))
      (forwards 8 told refl refl)

fresh-IsFresh : IsFresh fresh
fresh-IsFresh = record {
  no_log = refl;
  none_seen = refl;
  none_pending = λ id. refl;
  no_inbox = λ id. ground arith;
  no_outbox = λ id. ground arith;
  unwritten = λ id. ground arith;
  bytes = λ id. elim (Bool-cases (7 == id)) [ inl e ↦ rw e (omega arith) | inr e ↦ rw e tt ];
}

bridges_keep_order_example :
    (taken : List TcpRemoteNewMessage) × (last.log ≡ taken ++ messages_of (last.bridge 8).inbox)
    × Frames messages (foreign 8 taken) (last.bridge 8).stream.written
    × (map (broadcast 8) (last.bridge 8).outbox
        ≡ sent_by 8 last.seen ++ map (broadcast 8) (last.pending 8))
bridges_keep_order_example =
    bridges_keep_order messages flags events gzip running fresh last 8 fresh-IsFresh reached refl

networks_in_order_example :
    (handed told : List TcpRemoteNewMessage) × (map (broadcast 7) (last.bridge 7).outbox
      ≡ handed ++ map (broadcast 7) (last.pending 7))
    × Frames messages told (last.bridge 8).stream.written
    × Thins flags events gzip handed
        (sent_by 7 told ++ sent_by 7 (messages_of (last.bridge 8).inbox))
networks_in_order_example =
    networks_in_order flags events gzip messages running fresh last 7 8 fresh-IsFresh reached refl
      refl refl

-- What network 7 has sent.
abbrev input_message : TcpRemoteNewMessage
input_message = record { client_id = 7; tag = 0; flags = 0; payload = 0 ∷ 0 ∷ 1 ∷ 0 ∷ 65 ∷ [] }

-- The same run with what network 7 does: it has sent a message, and in the end it is silent.
fed :
    Feeds messages flags events gzip running 7 fresh
      (arrive 7 (fault would_block ∷ []) last)
      (input_message ∷ [])
unfolding hook receive_one Frame.recv_tcp_msg forward Frame.send_tcp_msg write_all to_be_bytes
    read_exact from_be_bytes
fed =
    hears (pause would_block ∷ []) (fault would_block ∷ [])
      (moves
        (moves
          (moves
            (moves
              (moves
                (begins (sent input_message ∷ [])
                  (7 ∷ 0 ∷ 0 ∷ 0 ∷ 0 ∷ 1 ∷ 0 ∷ 65 ∷ [], [], refl, omega arith, refl, refl) refl)
                (receives 7 (bridge [] (handed ∷ [])) (handed ∷ []) refl refl refl) tt)
              (sends 3 from_three refl) tt)
            (brokers 7 handed [] forward_to_clients [] refl refl) tt)
          (brokers 3 from_three [] forward_to_clients [] refl refl) tt)
        (forwards 8 told refl refl) tt)
      (omega arith) ([], refl, refl) refl

network_reads_network_example :
    let t = arrive 7 (fault would_block ∷ []) last in
    (taken read : List TcpRemoteNewMessage) × (items : List Signal) × (receive_many messages text
        (length read)
        (socket (arrivals told.stream.written))
      ≡ (ok read, socket []))
    × Carries messages items (t.bridge 7).stream.incoming []
    × (received_from 7 (input_message ∷ [])
        ≡ (taken ++ map (broadcast 7) (t.pending 7)) ++ received_from 7 (messages_sent items))
    × Thins flags events gzip taken (sent_by 7 read ++ sent_by 7 (messages_of (t.bridge 8).inbox))
network_reads_network_example =
    network_reads_network flags events gzip messages running messages-IsCodec text fresh
      (arrive 7 (fault would_block ∷ []) last) 7 8 (input_message ∷ []) fresh-IsFresh fed refl refl
      refl (socket (arrivals told.stream.written)) [] refl

bus_delivers_example :
    (t : Bus bytes) × Reaches flags events gzip messages running fresh t
    × ((t.bridge 7).stream.incoming ≡ [])
    × (t.pending 7 ≡ [])
    × ((t.bridge 8).stream.written ≡ [] ++ marked_frame)
    × (receive_many messages text 1 (socket (arrivals marked_frame))
        ≡ (ok (received_from 7 (input_message ∷ [])), socket []))
unfolding to_be_bytes
bus_delivers_example =
    bus_delivers flags events gzip messages running 7 8 refl refl refl messages-IsCodec text
      (sent input_message ∷ []) fresh marked_frame (socket (arrivals marked_frame)) []
      (7 ∷ 0 ∷ 0 ∷ 0 ∷ 0 ∷ 1 ∷ 0 ∷ 65 ∷ [], [], refl, omega arith, refl, refl)
      ((λ same. absurd (omega (arith, same))), tt) refl refl refl
      (7 ∷ 0 ∷ 4 ∷ 0 ∷ 0 ∷ 1 ∷ 0 ∷ 65 ∷ [], [], refl, omega arith, refl, refl) (omega arith) refl
