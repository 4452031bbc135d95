-- ===== src/Handshake/Completion.antt =====
-- The whole handshake: `FuzzConnector::new` of nn_connector/src/connector.rs against `run_service` and
-- its task of nn_fuzz/src/connector/server.rs.
use nn_fuzz.Base.{
  ℕ, ◌+◌, ◌-◌, ◌≤◌, ◌<◌, ◌≡◌, ap, ◌∙◌, ◌⊎◌, inr, List, [], ◌++◌, append_assoc, length, arith,
}
use nn_fuzz.Base.Text.{Bytes, codes}
use nn_fuzz.Base.Outcome.{Outcome, ok, err}
use nn_fuzz.Std.Net.{Socket, IoError, Arrival, arrivals, u32_mod}
use nn_fuzz.External.{Codec, IsCodec, LibaflError}
use nn_fuzz.Messages.{TcpRemoteNewMessage, TcpRequest, TcpResponce, remote_nn_accepted}
use nn_fuzz.Server.Service.{hello, spawn, welcome}
use nn_fuzz.Server.Bridge.{Bridge, Received, rounds, handle_connection}
use nn_fuzz.Server.Task.{Setting, is_client, nn_task}
use nn_fuzz.Connector.Connect as Connect
use nn_fuzz.Connector.Error.{Error}
use nn_fuzz.Connector.Connect.{FuzzConnector, hello_msg}
use nn_fuzz.Wire.{frame}
use nn_fuzz.Wire.Sending.{server_send_room}
use nn_fuzz.Wire.Delivery.{arrivals-append}
use nn_fuzz.Handshake.{handshake_accepts, welcome_spawns}

-- A setting in which every call succeeds, and LLMP gives the client an identifier.
abbrev pub sound_setting : ℕ → Setting
sound_setting id = record {
  into_std = inr tt;
  set_nonblocking = inr tt;
  shmem_provider = inr tt;
  client_on_port = inr (is_client id);
  set_read_timeout = inr tt;
}

-- A stream behind what was read from it and written to it.
abbrev pub behind : Socket → List Arrival → Bytes → ℕ → Socket
behind s rest out n = record {
  incoming = rest;
  written = s.written ++ out;
  capacity = s.capacity - n;
}

pub behind_twice :
    (s : Socket) (rest : List Arrival) (out more : Bytes) (n m : ℕ)
    → behind (behind s rest out n) rest more m ≡ behind s rest (out ++ more) (n + m)
behind_twice s rest out more n m = ground (arith, append_assoc s.written out more)

-- The connector of a handshake's end.
abbrev made : ℕ → Outcome Error ℕ × Socket → Outcome Error FuzzConnector
made port x = elim x.0 [
  | ok id ↦ ok (record { client_id = id; stream = x.1; port = port })
  | err e ↦ err e
  | Outcome.panic ↦ Outcome.panic
]

-- A bridge that has not handed anything to LLMP yet.
abbrev pub serving : List Received → List (LibaflError ⊎ Unit {0}) → Socket → Bridge
serving inbox replies stream = record {
  stream = stream;
  inbox = inbox;
  replies = replies;
  outbox = [];
}

module _ (requests : Codec TcpRequest) (responces : Codec TcpResponce)
    (messages : Codec TcpRemoteNewMessage) (io_text : IoError → Bytes) where
  -- The task accepts the client, and serves it.
  pub task_serves :
      (id n : ℕ) (ab : Bytes) (b : Bridge)
      → responces.to_allocvec (remote_nn_accepted id) ≡ inr ab
      → length ab < u32_mod
      → 4 + length ab ≤ b.stream.capacity
      → nn_task messages responces (sound_setting id) n b
        ≡ rounds messages id n
            (record b { stream = behind (b.stream) (b.stream.incoming) (frame ab) (4 + length ab) })
  unfolding nn_task handle_connection
  task_serves id n ab b ea fa room =
      ground (arith, server_send_room responces (remote_nn_accepted id) b.stream ea fa room)

  connector_made :
      IsCodec responces
      → (port id : ℕ) (hb ab qb : Bytes) (rest : List Arrival) (c : Socket)
      → responces.to_allocvec hello ≡ inr hb
      → responces.to_allocvec (remote_nn_accepted id) ≡ inr ab
      → requests.to_allocvec hello_msg ≡ inr qb
      → (length hb < u32_mod) × (length ab < u32_mod) × (length qb < u32_mod)
      → 4 + length qb ≤ c.capacity
      → c.incoming ≡ arrivals (frame hb ++ frame ab) ++ rest
      → Connect.new io_text requests responces port (inr c) (inr tt)
        ≡ ok (record {
          client_id = id;
          stream = behind c rest (frame qb) (4 + length qb);
          port = port;
        })
  unfolding Connect.new
  connector_made lawful port id hb ab qb rest c eh ea eq fits room arrived =
      let split =
        arrived
        ∙ ap (λ l. l ++ rest) (arrivals-append (frame hb) (frame ab))
        ∙ append_assoc (arrivals (frame hb)) (arrivals (frame ab)) rest in
      ap (made port) (
        handshake_accepts requests responces io_text lawful id hb ab qb rest c eh ea eq fits room
          split)

  -- The whole handshake, with codecs that keep their laws, when every call of the operating system and
  -- LibAFL succeeds, the three messages are below 2 to the 32 bytes and both peers have room: if what
  -- each side writes is what the other reads first, both complete. The client's connector has the
  -- identifier that LLMP gave the bridge, and has written its hello; the service spawns a task with
  -- the client's name and version; and the task serves that client behind the fuzzer's hello and its
  -- acceptance, which are all that the fuzzer has written. What follows these messages is left unread
  -- on both sides.
  pub handshake_completes :
      IsCodec requests
      → IsCodec responces
      → (port id n : ℕ) (hb ab qb : Bytes) (later rest : List Arrival) (c s : Socket)
        (inbox : List Received) (replies : List (LibaflError ⊎ Unit {0}))
      → responces.to_allocvec hello ≡ inr hb
      → responces.to_allocvec (remote_nn_accepted id) ≡ inr ab
      → requests.to_allocvec hello_msg ≡ inr qb
      → (length hb < u32_mod) × (length ab < u32_mod) × (length qb < u32_mod)
      → 4 + length qb ≤ c.capacity
      → (4 + length hb) + (4 + length ab) ≤ s.capacity
      → s.incoming ≡ arrivals (frame qb) ++ later
      → c.incoming ≡ arrivals (frame hb ++ frame ab) ++ rest
      → (Connect.new io_text requests responces port (inr c) (inr tt)
          ≡ ok (record {
            client_id = id;
            stream = behind c rest (frame qb) (4 + length qb);
            port = port;
          }))
        × (welcome requests responces s
            ≡ spawn
                (record { nn_name = codes "markov_chain"; nn_version = codes "1.0" })
                (behind s later (frame hb) (4 + length hb)))
        × (nn_task messages responces
              (sound_setting id)
              n
              (serving inbox replies (behind s later (frame hb) (4 + length hb)))
            ≡ rounds messages id n (
                serving inbox replies
                  (behind s later (frame hb ++ frame ab) ((4 + length hb) + (4 + length ab)))))
  handshake_completes lawful lawful' port id n hb ab qb later rest c s inbox replies eh ea eq
        (fh, fa, fq) room_c room_s arrived_s arrived_c =
      (
        connector_made lawful' port id hb ab qb rest c eh ea eq (fh, fa, fq) room_c arrived_c,
        welcome_spawns requests responces io_text lawful hb qb later s eh eq (fh, fq) (omega arith)
            arrived_s,
        task_serves id n ab (serving inbox replies (behind s later (frame hb) (4 + length hb))) ea
              fa (omega arith)
            ∙ ap (λ t. rounds messages id n (serving inbox replies t))
                (behind_twice s later (frame hb) (frame ab) (4 + length hb) (4 + length ab)),
      )
