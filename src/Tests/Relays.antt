-- ===== src/Tests/Relays.antt =====
-- Whole runs of the bridge.
use nn_fuzz.Base.{◌≡◌, refl, inr, List, [], ◌∷◌, ◌++◌, none, some, arith}
use nn_fuzz.Base.Text.{Bytes}
use nn_fuzz.Base.Outcome.{ok}
use nn_fuzz.Std.Net.{
  would_block, fault, arrivals, write_all, to_be_bytes, read_exact, from_be_bytes,
}
use nn_fuzz.Messages.{TcpRemoteNewMessage}
use nn_fuzz.Server.Frame as Frame
use nn_fuzz.Server.Bridge.{Received, Bridge, LlmpSend, forward, receive_one, round, rounds}
use nn_fuzz.Server.Bridge.Rounds.{Relayed}
use nn_fuzz.Server.Bridge.Rounds.Refinement.{rounds-Relayed}
use nn_fuzz.Server.Bridge.Rounds.Delivery.{sent, pause, rounds_deliver}
use nn_fuzz.Tests.Sample.{messages, messages-IsCodec, socket}

abbrev from_three : TcpRemoteNewMessage
from_three = record { client_id = 3; tag = 5; flags = 1; payload = 9 ∷ 8 ∷ [] }

abbrev own : TcpRemoteNewMessage
own = record { client_id = 7; tag = 5; flags = 0; payload = 6 ∷ [] }

abbrev three_frame : Bytes
three_frame = 0 ∷ 0 ∷ 0 ∷ 5 ∷ 3 ∷ 5 ∷ 1 ∷ 9 ∷ 8 ∷ []

abbrev relayed : LlmpSend
relayed = record { tag = 5; flags = 5; payload = 9 ∷ 8 ∷ [] }

-- Client 7 is the bridge itself.
abbrev bridge : List Received → Bridge
bridge inbox = record {
  stream = socket (arrivals three_frame ++ fault would_block ∷ []);
  inbox = inbox;
  replies = [];
  outbox = [];
}

abbrev busy : List Received
busy = inr (some from_three) ∷ inr (some own) ∷ inr none ∷ []

abbrev behind_busy : Bridge
behind_busy = record {
  stream = record { incoming = []; written = three_frame; capacity = 991 };
  inbox = [];
  replies = [];
  outbox = relayed ∷ [];
}

rounds-Relayed_example : Relayed messages 7 (bridge busy) behind_busy
unfolding rounds round forward receive_one Frame.send_tcp_msg Frame.recv_tcp_msg write_all
    to_be_bytes read_exact from_be_bytes
rounds-Relayed_example = rounds-Relayed messages 7 2 (bridge busy) behind_busy (ground arith) refl

abbrev quiet : List Received
quiet = inr (some own) ∷ []

rounds_deliver_example :
    (q : List Received) × (rounds messages 7 2 (bridge quiet)
      ≡ (ok tt, record (bridge quiet) { stream = socket []; inbox = q; outbox = relayed ∷ [] }))
unfolding to_be_bytes
rounds_deliver_example =
    rounds_deliver messages 7 messages-IsCodec (sent from_three ∷ pause would_block ∷ [])
      (bridge quiet) [] (refl, tt) refl
      (3 ∷ 5 ∷ 1 ∷ 9 ∷ 8 ∷ [], fault would_block ∷ [], refl, omega arith, refl, ([], refl, refl))
