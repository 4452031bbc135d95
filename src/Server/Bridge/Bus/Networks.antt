-- ===== src/Server/Bridge/Bus/Networks.antt =====
-- From what one network sends to what another one reads, in any interleaving: the two ends of
-- `handle_connection` of two clients, with LLMP and its broker between them.
use nn_fuzz.Base.{ℕ, ◌==◌, ◌≡◌, sym, ap, ◌∙◌, List, [], ◌++◌, map, Bool, true, false, length}
use nn_fuzz.Base.Text.{Bytes}
use nn_fuzz.Base.Outcome.{ok}
use nn_fuzz.Std.Net.{IoError, Arrival, Socket, arrivals}
use nn_fuzz.External.{Codec, IsCodec, Gzip, Libafl}
use nn_fuzz.Messages.{TcpRemoteNewMessage, Event}
use nn_fuzz.Llmp.{Flags}
use nn_fuzz.Server.Bridge.Forward.{receive_many, receive_many-Frames}
use nn_fuzz.Server.Bridge.Rounds.{marked, messages_of}
use nn_fuzz.Server.Bridge.Rounds.Refinement.{map-append}
use nn_fuzz.Server.Bridge.Rounds.Delivery.{Signal, messages_sent, Carries}
use nn_fuzz.Server.Bridge.Bus.{Bus, broadcast, sent_by, IsFresh}
use nn_fuzz.Server.Bridge.Bus.Feeding.{Feeds, Feeds-Reach, Feeds-IsFed}
use nn_fuzz.Server.Bridge.Bus.Fifo.{Thins, networks_in_order}

-- A network's messages as the broker gets them.
abbrev pub received_from : ℕ → List TcpRemoteNewMessage → List TcpRemoteNewMessage
received_from from ms = map (broadcast from) (map marked ms)

received_from-append :
    (from : ℕ) (xs ys : List TcpRemoteNewMessage)
    → received_from from (xs ++ ys) ≡ received_from from xs ++ received_from from ys
received_from-append from xs ys =
    ap (map (broadcast from)) (map-append marked xs ys)
    ∙ map-append (broadcast from) (map marked xs) (map marked ys)

module _ {L : Libafl} (f : Flags) (events : Codec (Event L)) (g : Gzip)
    (messages : Codec TcpRemoteNewMessage) (running : ℕ → Bool) where
  -- With a codec that keeps its law, from a fresh start, in every interleaving: if the network of one
  -- bridge sends whole messages with pauses between them, and another bridge's network gets the bytes
  -- that are written to it, then this one reads them to their end as messages, one after the other;
  -- and of what the first network has sent, marked and in its order, a first part is taken by the
  -- broker, then comes what waits for the broker, and then what the bridge has still to hear, while
  -- the part that is taken, without the events that are not for all, is exactly what the other network
  -- reads of that client and what of it waits in the inbox of its bridge.
  pub network_reads_network :
      IsCodec messages
      → (io_text : IoError → Bytes) (s t : Bus L) (from to : ℕ) (ms : List TcpRemoteNewMessage)
      → IsFresh s
      → Feeds messages f events g running from s t ms
      → running from ≡ true
      → running to ≡ true
      → (from == to) ≡ false
      → (r : Socket) (rest : List Arrival)
      → r.incoming ≡ arrivals (t.bridge to).stream.written ++ rest
      → (taken told : List TcpRemoteNewMessage) × (items : List Signal) × (receive_many messages
            io_text
            (length told)
            r
          ≡ (ok told, record r { incoming = rest }))
        × Carries messages items (t.bridge from).stream.incoming []
        × (received_from from ms
            ≡ (taken ++ map (broadcast from) (t.pending from))
              ++ received_from from (messages_sent items))
        × Thins f events g taken
            (sent_by from told ++ sent_by from (messages_of (t.bridge to).inbox))
  network_reads_network lawful io_text s t from to ms fresh feeds runs runs' other r rest arrived =
      let (taken, told, own, frames, thins) =
        networks_in_order f events g messages running s t from to fresh
          (Feeds-Reach messages f events g running feeds) runs runs' other in
      let fed = Feeds-IsFed messages f events g running lawful from fresh feeds in
      (
        taken,
        told,
        fed.items,
        receive_many-Frames messages lawful io_text told (t.bridge to).stream.written rest r frames
            arrived,
        fed.coming,
        ap (received_from from) fed.whole
            ∙ received_from-append from fed.heard (messages_sent fed.items)
            ∙ ap (λ l. l ++ received_from from (messages_sent fed.items))
                (ap (map (broadcast from)) (sym fed.handed) ∙ own),
        thins,
      )
