-- ===== src/Tests/Connections.antt =====
-- Runs of the connection between the fuzzer and a network.
use nn_fuzz.Base.{length, ◌+◌, ◌≡◌, ◌<◌, refl, inr, [], ◌∷◌, ◌++◌, arith, false, none, List}
use nn_fuzz.Base.Text.{Bytes, codes}
use nn_fuzz.Base.Outcome.{ok, err, panic}
use nn_fuzz.Std.Net.{
  Socket, would_block, fault, byte, arrivals, write_all, read_exact, to_be_bytes, from_be_bytes,
  u32_mod,
}
use nn_fuzz.External.{file}
use nn_fuzz.Messages.{TcpRemoteNewMessage}
use nn_fuzz.Server.Frame as Frame
use nn_fuzz.Server.Service.{tcp, empty, spawn, welcome, run_service}
use nn_fuzz.Connector.Frame as Client
use nn_fuzz.Connector.Connect.{handshake}
use nn_fuzz.Wire.{frame}
use nn_fuzz.Wire.Agreement.{blind, senders_agree}
use nn_fuzz.Wire.Exchange.{Carried, client_receives, server_receives}
use nn_fuzz.Wire.Faults.{timeout_in_header_panics, recv_sound}
use nn_fuzz.Server.Bridge.{rounds, Received}
use nn_fuzz.Server.Bridge.Rounds.{marked}
use nn_fuzz.Server.Bridge.Rounds.Delivery as Signals
use nn_fuzz.Server.Bridge.Rounds.Delivery.{pause}
use nn_fuzz.Server.Service.Loop.{Survives, IsServed}
use nn_fuzz.Handshake.Session.{session_delivers}
use nn_fuzz.Server.Task.{nn_task}
use nn_fuzz.Connector.Connect as Connect
use nn_fuzz.Handshake.{run_service_cut_off}
use nn_fuzz.Handshake.Completion.{behind, serving, sound_setting, handshake_completes}
use nn_fuzz.Tests.Sample.{
  text, messages, messages-IsCodec, requests, requests-IsCodec, responces, responces-IsCodec,
  socket,
}

abbrev message : TcpRemoteNewMessage
message = record { client_id = 3; tag = 5; flags = 1; payload = 9 ∷ 8 ∷ [] }

abbrev message_frame : Bytes
message_frame = 0 ∷ 0 ∷ 0 ∷ 5 ∷ 3 ∷ 5 ∷ 1 ∷ 9 ∷ 8 ∷ []

abbrev sent : Socket
sent = record { incoming = []; written = message_frame; capacity = 991 }

abbrev carried : Carried (socket []) sent (socket (arrivals message_frame)) []
carried = record { bytes = message_frame; sent = refl; arrived = refl }

client_receives_example :
    (bs : Bytes) × (Client.recv_tcp_msg text (socket (arrivals message_frame)) ≡ (ok bs, socket []))
    × (messages.from_bytes bs ≡ inr message)
unfolding Frame.send_tcp_msg write_all to_be_bytes
client_receives_example =
    client_receives text messages messages-IsCodec message (socket []) sent
      (socket (arrivals message_frame)) [] carried refl

server_receives_example :
    (bs : Bytes) × (Frame.recv_tcp_msg (socket (arrivals message_frame)) ≡ (ok bs, socket []))
    × (messages.from_bytes bs ≡ inr message)
unfolding Client.send_tcp_msg write_all to_be_bytes
server_receives_example =
    server_receives text messages messages-IsCodec message (socket []) sent
      (socket (arrivals message_frame)) [] carried refl

senders_agree_example :
    (blind (Frame.send_tcp_message messages message (socket []))
      ≡ blind (Frame.send_tcp_msg messages message (socket [])))
    × (blind (Client.send_tcp_msg text messages message (socket []))
        ≡ blind (Frame.send_tcp_msg messages message (socket [])))
senders_agree_example = senders_agree text messages message (socket [])

recv_sound_example :
    (arrivals message_frame ≡ arrivals (frame (3 ∷ 5 ∷ 1 ∷ 9 ∷ 8 ∷ [])) ++ [])
    × Path Bytes [] []
    × (5 < u32_mod)
unfolding Frame.recv_tcp_msg read_exact from_be_bytes
recv_sound_example =
    recv_sound (socket (arrivals message_frame)) (socket []) (3 ∷ 5 ∷ 1 ∷ 9 ∷ 8 ∷ []) (ground arith)
      refl

abbrev interrupted : Socket
interrupted =
    socket (byte 0 ∷ fault would_block ∷ (arrivals (0 ∷ 0 ∷ 1 ∷ 9 ∷ []) ++ fault would_block ∷ []))

timeout_in_header_panics_example :
    let t = socket (arrivals (0 ∷ 0 ∷ 1 ∷ 9 ∷ []) ++ fault would_block ∷ []) in
    (Frame.recv_tcp_msg interrupted ≡ (err (file would_block), t))
    × (Frame.recv_tcp_msg t ≡ (panic, socket []))
unfolding to_be_bytes
timeout_in_header_panics_example =
    timeout_in_header_panics 0 0 0 1 9 [] [] interrupted refl (omega arith) refl

-- The greeting of the fuzzer, its acceptance of client 7 and the greeting of the client.
abbrev hello_bytes : Bytes
hello_bytes = 0 ∷ 65536 ∷ 0 ∷ []

abbrev greeting : Bytes
greeting =
    1 ∷ 109 ∷ 1 ∷ 97 ∷ 1 ∷ 114 ∷ 1 ∷ 107 ∷ 1 ∷ 111 ∷ 1 ∷ 118 ∷ 1 ∷ 95 ∷ 1 ∷ 99 ∷ 1 ∷ 104 ∷ 1 ∷ 97
    ∷ 1 ∷ 105 ∷ 1 ∷ 110 ∷ 0 ∷ 49 ∷ 46 ∷ 48 ∷ []

-- Both sides of a handshake, and what either has of it when it begins.
abbrev knocking : Socket
knocking = socket (arrivals (frame hello_bytes ++ frame (1 ∷ 7 ∷ [])) ++ [])

abbrev answering : Socket
answering = socket (arrivals (frame greeting) ++ fault would_block ∷ [])

handshake_completes_example :
    (Connect.new text requests responces 7878 (inr knocking) (inr tt)
      ≡ ok (record {
        client_id = 7;
        stream = behind knocking [] (frame greeting) (4 + length greeting);
        port = 7878;
      }))
    × (welcome requests responces answering
        ≡ spawn
            (record { nn_name = codes "markov_chain"; nn_version = codes "1.0" })
            (behind answering
              (fault would_block ∷ [])
              (frame hello_bytes)
              (4 + length hello_bytes)))
    × (nn_task messages responces (sound_setting 7) 1 (
          serving [] [] (
            behind answering (fault would_block ∷ []) (frame hello_bytes) (4 + length hello_bytes)))
        ≡ rounds messages 7 1 (
            serving [] [] (
              behind answering
                (fault would_block ∷ [])
                (frame hello_bytes ++ frame (1 ∷ 7 ∷ []))
                ((4 + length hello_bytes) + (4 + 2)))))
handshake_completes_example =
    handshake_completes requests responces messages text requests-IsCodec responces-IsCodec 7878 7 1
      hello_bytes (1 ∷ 7 ∷ []) greeting (fault would_block ∷ []) [] knocking answering [] [] refl
      refl refl (omega arith, omega arith, omega arith) (omega arith) (omega arith) refl refl

-- A connection that fails and one that is closed at once come first; behind the greeting comes one
-- message after a pause.
abbrev talking : Socket
talking =
    socket
      (arrivals (frame greeting) ++ fault would_block ∷ (arrivals message_frame ++ byte 0 ∷ []))

closed-Survives : Survives requests responces (tcp (socket []))
unfolding welcome Frame.send_tcp_message Frame.recv_tcp_message write_all read_exact to_be_bytes
closed-Survives h = ground (arith, h)

session_delivers_example :
    (t : Socket) × IsServed
      (record { nn_name = codes "markov_chain"; nn_version = codes "1.0" })
      t
      (run_service requests responces (empty ∷ tcp (socket []) ∷ tcp talking ∷ []) []).0
    × (q : List Received) × (nn_task messages responces
          (sound_setting 7)
          2
          (serving (inr none ∷ []) [] t)
        ≡ (
          ok tt,
          record {
            stream =
                behind talking
                  (byte 0 ∷ [])
                  (frame hello_bytes ++ frame (1 ∷ 7 ∷ []))
                  ((4 + length hello_bytes) + (4 + 2));
            inbox = q;
            replies = [];
            outbox = marked message ∷ [];
          },
        ))
unfolding to_be_bytes
session_delivers_example =
    session_delivers requests responces messages requests-IsCodec messages-IsCodec 7 hello_bytes
      (1 ∷ 7 ∷ []) greeting (empty ∷ tcp (socket []) ∷ []) [] [] talking
      (pause would_block ∷ Signals.sent message ∷ [])
      (fault would_block ∷ (arrivals message_frame ++ byte 0 ∷ [])) (byte 0 ∷ []) (inr none ∷ [])
      refl refl refl (omega arith, omega arith, omega arith) (omega arith)
      (tt, (closed-Survives, tt)) refl
      (
        arrivals message_frame ++ byte 0 ∷ [],
        refl,
        (3 ∷ 5 ∷ 1 ∷ 9 ∷ 8 ∷ [], byte 0 ∷ [], refl, omega arith, refl, refl),
      )
      (tt, tt)

run_service_cut_off_example :
    run_service requests responces
      (tcp (socket (arrivals (0 ∷ 0 ∷ 0 ∷ 2 ∷ 1 ∷ []))) ∷ tcp (socket []) ∷ [])
      []
    ≡ ([], false)
unfolding from_be_bytes
run_service_cut_off_example =
    run_service_cut_off requests responces text hello_bytes (0 ∷ 0 ∷ 0 ∷ 2 ∷ []) (1 ∷ [])
      (socket (arrivals (0 ∷ 0 ∷ 0 ∷ 2 ∷ 1 ∷ []))) (tcp (socket []) ∷ []) [] refl (omega arith)
      (omega arith) refl (omega arith) refl
