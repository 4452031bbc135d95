-- ===== src/Server/Bridge/Bus/Delivery.antt =====
-- Runs of the bus from what one network has sent to what another one reads.
use nn_fuzz.Base.{
  ℕ, ◌≤◌, ◌==◌, ◌≡◌, ◌≢◌, refl, sym, ap, ◌∙◌, List, [], ◌∷◌, ◌++◌, map, Bool, true, false, length,
  arith, All, ==_refl,
}
use mathlib.Core.Path.{subst}
use nn_fuzz.Base.Text.{Bytes}
use nn_fuzz.Base.Outcome.{ok}
use nn_fuzz.Std.Net.{IoError, Arrival, Socket, arrivals}
use nn_fuzz.External.{Codec, IsCodec, Gzip, Libafl}
use nn_fuzz.Messages.{TcpRemoteNewMessage, Event}
use nn_fuzz.Llmp.{Flags, llmp_tag_event_to_both}
use nn_fuzz.Server.Bridge.{Bridge, forward_all}
use nn_fuzz.Server.Bridge.Forward.{Frames, receive_many, receive_many-Frames}
use nn_fuzz.Server.Bridge.Rounds.{marked}
use nn_fuzz.Server.Bridge.Rounds.Delivery.{Signal, messages_sent, Carries}
use nn_fuzz.Server.Bridge.Bus.{Bus, set_bridge, forwards, here, next}
use nn_fuzz.Server.Bridge.Bus.Networks.{received_from}
use nn_fuzz.Server.Bridge.Bus.Progress.{
  answers, forward_room, Reaches, Reach-trans, hear_all, take_all,
}

module _ {L : Libafl} (f : Flags) (events : Codec (Event L)) (g : Gzip)
    (messages : Codec TcpRemoteNewMessage) (running : ℕ → Bool) where
  module _ (from to : ℕ) (runs : running from ≡ true) (runs' : running to ≡ true)
      (other : (from == to) ≡ false) where
    marked-unread :
        (ms : List TcpRemoteNewMessage)
        → All (λ m. m.tag ≢ llmp_tag_event_to_both) ms
        → All (λ m. m.tag ≢ llmp_tag_event_to_both) (map marked ms)
    marked-unread [] all = tt
    marked-unread (m ∷ ms) (unread, all) = (unread, marked-unread ms all)

    all_foreign :
        (ms : List TcpRemoteNewMessage)
        → All (λ m. (m.client_id == to) ≡ false) (received_from from ms)
    all_foreign [] = tt
    all_foreign (m ∷ ms) = (other, all_foreign ms)

    length-received_from :
        (ms : List TcpRemoteNewMessage) → length (received_from from ms) ≡ length ms
    length-received_from [] = refl
    length-received_from (m ∷ ms) = omega (arith, length-received_from ms)

    forward_last :
        (ms : List TcpRemoteNewMessage) (out : Bytes) (b : Bridge)
        → Frames messages ms out
        → length out ≤ b.stream.capacity
        → All (λ m. (m.client_id == to) ≡ false) ms
        → b.inbox ≡ answers ms
        → (b' : Bridge) × (forward_all messages to b ≡ (ok tt, b'))
          × (b'.stream.written ≡ b.stream.written ++ out)
    forward_last ms out b frames room foreign fills =
        let (s', run, wrote) = forward_room messages to ms out b.stream frames room foreign in
        (record b { inbox = []; stream = s' }, ground (arith, run, fills), wrote)

    -- With a codec that keeps its law: if one bridge's network has sent messages of less than 2 to the
    -- 32 bytes, with pauses between them, none of them with the broker's tag, while LLMP takes what that
    -- bridge sends and nothing of it waits for the broker, and nothing waits for the bridge of another
    -- client, whose network has room for the frames of the messages as the broker gets them, then there
    -- is a run in which all is heard, nothing is left to the broker, exactly those frames are written
    -- behind what was before, and the network that gets them reads these messages, by receiving as
    -- many, in their order.
    pub bus_delivers :
        IsCodec messages
        → (io_text : IoError → Bytes) (items : List Signal) (s : Bus L) (out : Bytes) (r : Socket)
          (rest : List Arrival)
        → Carries messages items (s.bridge from).stream.incoming []
        → All (λ m. m.tag ≢ llmp_tag_event_to_both) (messages_sent items)
        → (s.bridge from).replies ≡ []
        → s.pending from ≡ []
        → (s.bridge to).inbox ≡ []
        → Frames messages (received_from from (messages_sent items)) out
        → length out ≤ (s.bridge to).stream.capacity
        → r.incoming ≡ arrivals out ++ rest
        → (t : Bus L) × Reaches f events g messages running s t
          × ((t.bridge from).stream.incoming ≡ [])
          × (t.pending from ≡ [])
          × ((t.bridge to).stream.written ≡ (s.bridge to).stream.written ++ out)
          × (receive_many messages io_text (length (messages_sent items)) r
              ≡ (ok (received_from from (messages_sent items)), record r { incoming = rest }))
    bus_delivers lawful io_text items s out r rest c unread accepts none_pending none_new frames
          room arrived =
        let ms = received_from from (messages_sent items) in
        let (u, heard) =
          hear_all f events g messages running from to runs other lawful items s accepts c in
        let (v, taken) =
          take_all f events g messages running from to runs other (map marked (messages_sent items))
            u (heard.waits ∙ ap (λ l. l ++ map marked (messages_sent items)) none_pending)
            (marked-unread (messages_sent items) unread) in
        let stream : (v.bridge to).stream ≡ (s.bridge to).stream =
          taken.same_to ∙ ap (λ (b : Bridge). b.stream) heard.same in
        let fills : (v.bridge to).inbox ≡ answers ms =
          taken.filled
          ∙ ap (λ (b : Bridge). b.inbox ++ answers ms) heard.same
          ∙ ap (λ q. q ++ answers ms) none_new in
        let (b', run, wrote) =
          forward_last ms out (v.bridge to) frames
            (subst (λ (x : Socket). length out ≤ x.capacity) (sym stream) room)
            (all_foreign (messages_sent items)) fills in
        let swapped : (to == from) ≡ false = ground (arith, other) in
        (
          set_bridge to b' v,
          Reach-trans f events g messages running heard.reach (
              Reach-trans f events g messages running taken.reach
                (next here (forwards to b' runs' run))),
          rw swapped (ap (λ (x : Socket). x.incoming) taken.same_from ∙ heard.silent),
          taken.empty,
          rw (==_refl to) (wrote ∙ ap (λ (x : Socket). x.written ++ out) stream),
          subst (λ n. receive_many messages io_text n r ≡ (ok ms, record r { incoming = rest }))
              (length-received_from (messages_sent items))
              (receive_many-Frames messages lawful io_text ms out rest r frames arrived),
        )
