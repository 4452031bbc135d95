-- ===== src/Tests/Bridges.antt =====
-- Runs of the bridge between LLMP and a network.
use nn_fuzz.Base.{◌≡◌, refl, inr, List, [], ◌∷◌, ◌++◌, none, some}
use nn_fuzz.Base.Text.{Bytes}
use nn_fuzz.Base.Outcome.{ok}
use nn_fuzz.Std.Net.{would_block, fault, arrivals, write_all, to_be_bytes}
use nn_fuzz.Messages.{TcpRemoteNewMessage, Event, new_testcase}
use nn_fuzz.Payload.{Holds}
use nn_fuzz.Server.Frame as Frame
use nn_fuzz.Server.Bridge.{Received, Bridge, LlmpSend, forward, receive_one}
use nn_fuzz.Server.Bridge.Forward.{receive_many, forward_delivers}
use nn_fuzz.Server.Bridge.Relay.{IsMarked}
use nn_fuzz.Connector.Events.{testcase_of, send_input, testcase_map, recv_testcase, generate_event}
use nn_fuzz.Connector.Frame as Client
use nn_fuzz.Llmp.{Flags, IsFlags}
use nn_fuzz.Llmp.Manager.{LlmpClient, NnEventManager, managing, Send, send_buf, fire}
use nn_fuzz.Journey.{input_reaches_llmp, event_reaches_network}
use nn_fuzz.Tests.Sample.{
  text, messages, messages-IsCodec, bytes, events, events-IsCodec, gzip, gzip-IsGzip, socket,
}

abbrev from_three : TcpRemoteNewMessage
from_three = record { client_id = 3; tag = 5; flags = 1; payload = 9 ∷ 8 ∷ [] }

abbrev from_seven : TcpRemoteNewMessage
from_seven = record { client_id = 7; tag = 5; flags = 0; payload = 6 ∷ [] }

-- Client 7 is the bridge itself.
abbrev inbox : List Received
inbox = inr (some from_three) ∷ inr (some from_seven) ∷ inr none ∷ []

abbrev three_frame : Bytes
three_frame = 0 ∷ 0 ∷ 0 ∷ 5 ∷ 3 ∷ 5 ∷ 1 ∷ 9 ∷ 8 ∷ []

forward_delivers_example :
    receive_many messages text 1 (socket (arrivals three_frame)) ≡ (ok (from_three ∷ []), socket [])
unfolding forward Frame.send_tcp_msg write_all to_be_bytes
forward_delivers_example =
    forward_delivers messages messages-IsCodec text 7 inbox [] (socket [])
      (record { incoming = []; written = three_frame; capacity = 991 })
      (socket (arrivals three_frame)) [] refl
      (record { bytes = three_frame; sent = refl; arrived = refl })

abbrev bridge : Bridge
bridge = record {
  stream = socket (arrivals three_frame ++ fault would_block ∷ []);
  inbox = inbox;
  replies = [];
  outbox = [];
}

-- The frame of the input 65 of client 7.
abbrev input_frame : Bytes
input_frame = 0 ∷ 0 ∷ 0 ∷ 8 ∷ 7 ∷ 0 ∷ 0 ∷ 0 ∷ 0 ∷ 1 ∷ 0 ∷ 65 ∷ []

abbrev waiting : Bridge
waiting = record bridge { stream = socket (arrivals input_frame) }

input_reaches_llmp_example :
    (m : LlmpSend) × (receive_one messages 7 waiting
      ≡ (ok tt, record waiting { stream = socket []; outbox = m ∷ [] }))
    × IsMarked m
    × Holds events gzip 1 (testcase_of bytes events gzip (65 ∷ [])) m.flags m.payload
    × (m.tag ≡ 0)
unfolding send_input generate_event Client.send_tcp_msg write_all to_be_bytes
input_reaches_llmp_example =
    input_reaches_llmp events gzip messages text events-IsCodec gzip-IsGzip messages-IsCodec 7 7
      (65 ∷ []) (socket []) (record { incoming = []; written = input_frame; capacity = 988 })
      waiting [] refl (record { bytes = input_frame; sent = refl; arrived = refl }) refl

abbrev pub flags : Flags
flags = record { initialized = 0; compressed = 1; of_send_buf = 0 }

pub flags-IsFlags : IsFlags flags
flags-IsFlags = record { added = refl; absent = refl }

abbrev pub testcase : Event bytes
testcase = new_testcase (65 ∷ []) none tt 4 tt 10 20

abbrev pub client : List Send → LlmpClient bytes
client sends = record {
  id = 3;
  sent = sends;
  replies = [];
  description = inr 3;
  waits = 0;
  exported = [];
}

abbrev pub manager : List Send → NnEventManager bytes
manager sends = managing (client sends) tt

abbrev pub sent : Send
sent = send_buf 0x002B_0741 (0 ∷ 4 ∷ 10 ∷ 20 ∷ 65 ∷ [])

abbrev pub event_frame : Bytes
event_frame = 0 ∷ 0 ∷ 0 ∷ 8 ∷ 3 ∷ 0x002B_0741 ∷ 0 ∷ 0 ∷ 4 ∷ 10 ∷ 20 ∷ 65 ∷ []

event_reaches_network_example :
    recv_testcase bytes events gzip text messages (socket (arrivals event_frame))
    ≡ (ok (testcase_map bytes events gzip text messages testcase), socket [])
unfolding fire forward Frame.send_tcp_msg write_all to_be_bytes
event_reaches_network_example =
    event_reaches_network events gzip messages text flags flags-IsFlags refl events-IsCodec
      gzip-IsGzip messages-IsCodec testcase (manager []) (manager (sent ∷ [])) 7 (socket [])
      (record { incoming = []; written = event_frame; capacity = 988 })
      (socket (arrivals event_frame)) [] sent refl refl refl refl
      (record { bytes = event_frame; sent = refl; arrived = refl })
