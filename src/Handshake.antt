-- ===== src/Handshake.antt =====
-- The two halves of the handshake: `connect_to_fuzzer` of nn_connector/src/connector.rs and
-- `run_service` of nn_fuzz/src/connector/server.rs.
pub mod Completion
pub mod Session
use nn_fuzz.Base.{
  ℕ, ◌+◌, ◌-◌, ◌≤◌, ◌<◌, ◌≡◌, refl, ap, ◌∙◌, inr, List, ◌∷◌, ◌++◌, length, arith, false,
}
use nn_fuzz.Base.Text.{Bytes, codes}
use nn_fuzz.Base.Outcome.{ok}
use nn_fuzz.Std.Net.{Socket, IoError, Arrival, arrivals, u32_mod, from_be_bytes}
use nn_fuzz.External.{Codec, IsCodec}
use nn_fuzz.Messages.{TcpRequest, TcpResponce, remote_nn_accepted}
use nn_fuzz.Server.Frame
use nn_fuzz.Server.Service.{ListenerStream, tcp, NnDescription, hello, spawn, welcome, run_service}
use nn_fuzz.Connector.Frame as Client
use nn_fuzz.Connector.Connect.{handshake, hello_msg}
use nn_fuzz.Wire.{frame}
use nn_fuzz.Wire.Sending.{server_send_room}
use nn_fuzz.Wire.Delivery.{client_recv-frame, server_recv_message-frame}
use nn_fuzz.Wire.Agreement.{blind, blind-eq-ok, senders_agree, receivers_agree}
use nn_fuzz.Wire.Faults.{recv_end_in_body}

module _ (requests : Codec TcpRequest) (responces : Codec TcpResponce)
    (io_text : IoError → Bytes) where
  client_send_room :
      {T : Type 0} (c : Codec T) (msg : T) (s : Socket) (bs : Bytes)
      → c.to_allocvec msg ≡ inr bs
      → length bs < u32_mod
      → 4 + length bs ≤ s.capacity
      → Client.send_tcp_msg io_text c msg s ≡ (
        ok tt,
        record s { written = s.written ++ frame bs; capacity = s.capacity - (4 + length bs) },
      )
  client_send_room c msg s bs ser fits room =
      blind-eq-ok _
        ((senders_agree io_text c msg s).1 ∙ ap blind (server_send_room c msg s ser fits room))

  server_send_message_room :
      {T : Type 0} (c : Codec T) (msg : T) (s : Socket) (bs : Bytes)
      → c.to_allocvec msg ≡ inr bs
      → length bs < u32_mod
      → 4 + length bs ≤ s.capacity
      → Frame.send_tcp_message c msg s ≡ (
        ok tt,
        record s { written = s.written ++ frame bs; capacity = s.capacity - (4 + length bs) },
      )
  server_send_message_room c msg s bs ser fits room =
      blind-eq-ok _
        ((senders_agree io_text c msg s).0 ∙ ap blind (server_send_room c msg s ser fits room))

  -- The client's half, with a codec that keeps its law: if a hello of the fuzzer and an acceptance
  -- arrive as frames, all three messages are below 2 to the 32 bytes, there is room for the
  -- client's hello and the timeout can be set, `connect_to_fuzzer` returns the accepted
  -- identifier; it has written one frame, its hello, and read no more than the two messages.
  pub handshake_accepts :
      IsCodec responces
      → (id : ℕ) (hb ab qb : Bytes) (rest : List Arrival) (r : Socket)
      → responces.to_allocvec hello ≡ inr hb
      → responces.to_allocvec (remote_nn_accepted id) ≡ inr ab
      → requests.to_allocvec hello_msg ≡ inr qb
      → (length hb < u32_mod) × (length ab < u32_mod) × (length qb < u32_mod)
      → 4 + length qb ≤ r.capacity
      → r.incoming ≡ arrivals (frame hb) ++ (arrivals (frame ab) ++ rest)
      → handshake io_text requests responces (inr tt) r ≡ (
        ok id,
        record {
          incoming = rest;
          written = r.written ++ frame qb;
          capacity = r.capacity - (4 + length qb);
        },
      )
  unfolding handshake
  handshake_accepts lawful id hb ab qb rest r eh ea eq (fh, fa, fq) room arrived =
      let r1 = record r { incoming = arrivals (frame ab) ++ rest } in
      let r2 = record r1 {
        written = r.written ++ frame qb;
        capacity = r.capacity - (4 + length qb);
      } in
      ground (
        arith,
        client_recv-frame hb (arrivals (frame ab) ++ rest) r fh arrived io_text,
        lawful.from_bytes-to_allocvec hello hb eh,
        client_send_room requests hello_msg r1 qb eq fq room,
        client_recv-frame ab rest r2 fa refl io_text,
        lawful.from_bytes-to_allocvec (remote_nn_accepted id) ab ea,
      )

  -- The fuzzer's half, with a codec that keeps its law: a connection with room for the fuzzer's
  -- hello, whose peer sends the client's hello, both below 2 to the 32 bytes, is welcomed. The
  -- service has written its own hello, read that one frame, and spawns a task with the client's
  -- name and version.
  pub welcome_spawns :
      IsCodec requests
      → (hb qb : Bytes) (rest : List Arrival) (s : Socket) → responces.to_allocvec hello ≡ inr hb
      → requests.to_allocvec hello_msg ≡ inr qb
      → (length hb < u32_mod) × (length qb < u32_mod)
      → 4 + length hb ≤ s.capacity
      → s.incoming ≡ arrivals (frame qb) ++ rest
      → welcome requests responces s
        ≡ spawn
            (record { nn_name = codes "markov_chain"; nn_version = codes "1.0" })
            (record {
              incoming = rest;
              written = s.written ++ frame hb;
              capacity = s.capacity - (4 + length hb);
            })
  unfolding welcome
  welcome_spawns lawful hb qb rest s eh eq (fh, fq) room arrived =
      let s1 = record s {
        written = s.written ++ frame hb;
        capacity = s.capacity - (4 + length hb);
      } in
      ground (
        arith,
        server_send_message_room responces hello s hb eh fh room,
        server_recv_message-frame qb rest s1 fq arrived,
        lawful.from_bytes-to_allocvec hello_msg qb eq,
      )

  -- One peer can end the service: if a connection takes the hello, sends a length and closes
  -- before the body is complete, no connection after it is served, whatever it is.
  pub run_service_cut_off :
      (hb head body : Bytes) (s : Socket) (more : List ListenerStream)
      (tasks : List (NnDescription × Socket))
      → responces.to_allocvec hello ≡ inr hb
      → length hb < u32_mod
      → 4 + length hb ≤ s.capacity
      → 4 ≡ length head
      → length body < from_be_bytes head
      → s.incoming ≡ arrivals head ++ arrivals body
      → run_service requests responces (tcp s ∷ more) tasks ≡ (tasks, false)
  unfolding run_service welcome
  run_service_cut_off hb head body s more tasks eh fh room four short arrived =
      let s1 = record s {
        written = s.written ++ frame hb;
        capacity = s.capacity - (4 + length hb);
      } in
      ground (
        arith,
        server_send_message_room responces hello s hb eh fh room,
        (receivers_agree io_text s1).0,
        recv_end_in_body head body s1 four short arrived,
      )
