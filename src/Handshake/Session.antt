-- ===== src/Handshake/Session.antt =====
-- A whole session of a network with the fuzzer, from the accepted connection to LLMP: `run_service`,
-- its task and the bridge of nn_fuzz/src/connector/server.rs together.
use nn_fuzz.Base.{
  ℕ, ◌+◌, ◌≤◌, ◌<◌, ◌≡◌, refl, ap, ◌∙◌, inr, List, [], ◌∷◌, ◌++◌, length, map, All, arith,
}
use nn_fuzz.Base.Text.{Bytes, codes}
use nn_fuzz.Base.Outcome.{ok}
use nn_fuzz.Std.Net.{Socket, Arrival, arrivals, u32_mod}
use nn_fuzz.External.{Codec, IsCodec}
use nn_fuzz.Messages.{TcpRemoteNewMessage, TcpRequest, TcpResponce, remote_nn_accepted}
use nn_fuzz.Server.Service.{ListenerStream, tcp, hello, run_service}
use nn_fuzz.Server.Service.Loop.{Tasks, Survives, IsServed, run_service-IsServed}
use nn_fuzz.Server.Bridge.{Received, rounds}
use nn_fuzz.Server.Bridge.Rounds.{marked}
use nn_fuzz.Server.Bridge.Rounds.Delivery.{Signal, messages_sent, IsQuiet, Carries, rounds_deliver}
use nn_fuzz.Server.Task.{nn_task}
use nn_fuzz.Connector.Connect.{hello_msg}
use nn_fuzz.Wire.{frame}
use nn_fuzz.Handshake.{welcome_spawns}
use nn_fuzz.Handshake.Completion.{sound_setting, behind, behind_twice, serving, task_serves}

module _ (requests : Codec TcpRequest) (responces : Codec TcpResponce)
    (messages : Codec TcpRemoteNewMessage) where
  -- With codecs that keep their laws, when every call of the operating system and LibAFL behind the
  -- connection succeeds and the three messages of the handshake are below 2 to the 32 bytes: a
  -- connection that has room for both of the fuzzer's is served, whatever the connections before it
  -- did, if none of them ended the service, and whatever those behind it do. If the client's hello
  -- arrives and behind it messages of less than 2 to the 32 bytes with pauses between them, while LLMP
  -- has nothing for that client and takes what it is sent, then its task, after as many rounds as there
  -- are messages and pauses, has not panicked, has written the fuzzer's hello and its acceptance only,
  -- and has handed LLMP all the messages, marked and in their order; what follows them is left.
  pub session_delivers :
      IsCodec requests
      → IsCodec messages
      → (id : ℕ) (hb ab qb : Bytes) (before more : List ListenerStream) (tasks : Tasks) (s : Socket)
        (items : List Signal) (later rest : List Arrival) (inbox : List Received)
      → responces.to_allocvec hello ≡ inr hb
      → responces.to_allocvec (remote_nn_accepted id) ≡ inr ab
      → requests.to_allocvec hello_msg ≡ inr qb
      → (length hb < u32_mod) × (length ab < u32_mod) × (length qb < u32_mod)
      → (4 + length hb) + (4 + length ab) ≤ s.capacity
      → All (Survives requests responces) before
      → s.incoming ≡ arrivals (frame qb) ++ later
      → Carries messages items later rest
      → All (IsQuiet id) inbox
      → (t : Socket) × IsServed
          (record { nn_name = codes "markov_chain"; nn_version = codes "1.0" })
          t
          (run_service requests responces (before ++ tcp s ∷ more) tasks).0
        × (q : List Received) × (nn_task messages responces
              (sound_setting id)
              (length items)
              (serving inbox [] t)
            ≡ (
              ok tt,
              record {
                stream = behind s rest (frame hb ++ frame ab) ((4 + length hb) + (4 + length ab));
                inbox = q;
                replies = [];
                outbox = map marked (messages_sent items);
              },
            ))
  session_delivers lawful lawful' id hb ab qb before more tasks s items later rest inbox eh ea eq
        (fh, fa, fq) room survive arrived carried quiet =
      let t = behind s later (frame hb) (4 + length hb) in
      let spawned =
        welcome_spawns requests responces (λ _. []) lawful hb qb later s eh eq (fh, fq)
          (omega arith) arrived in
      let u = behind s later (frame hb ++ frame ab) ((4 + length hb) + (4 + length ab)) in
      let (q, delivers) =
        rounds_deliver messages id lawful' items (serving inbox [] u) rest quiet refl carried in
      (
        t,
        run_service-IsServed requests responces _ s t more spawned before tasks survive,
        q,
        task_serves requests responces messages (λ _. []) id (length items) ab (serving inbox [] t)
              ea fa (omega arith)
            ∙ ap (λ x. rounds messages id (length items) (serving inbox [] x))
                (behind_twice s later (frame hb) (frame ab) (4 + length hb) (4 + length ab))
            ∙ delivers,
      )
