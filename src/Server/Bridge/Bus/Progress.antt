-- ===== src/Server/Bridge/Bus/Progress.antt =====
-- Steps of the bus, one behind the other, that hear a network, take what its bridge has sent and tell
-- another network of it.
use nn_fuzz.Base.{
  ℕ, ◌+◌, ◌-◌, ◌≤◌, ◌==◌, ◌≡◌, ◌≢◌, refl, sym, ap, ◌∙◌, inr, List, [], ◌∷◌, ◌++◌, append_assoc,
  append-nil, some, map, Bool, true, false, length, length-append, arith, All, ==_refl,
}
use mathlib.Core.Path.{subst}
use nn_fuzz.Base.Text.{Bytes}
use nn_fuzz.Base.Outcome.{ok}
use nn_fuzz.Std.Net.{Socket, to_be_bytes}
use nn_fuzz.Std.Net.Laws.{length-to_be_bytes}
use nn_fuzz.External.{Codec, IsCodec, Gzip, Libafl}
use nn_fuzz.Messages.{TcpRemoteNewMessage, Event}
use nn_fuzz.Llmp.{Flags, llmp_tag_event_to_both}
use nn_fuzz.Llmp.Broker.{forward_to_clients}
use nn_fuzz.Llmp.Broker.Laws.{hook_other_tag}
use nn_fuzz.Server.Bridge.{Bridge, LlmpSend, Received, forward, receive_one}
use nn_fuzz.Server.Bridge.Forward.{Frames}
use nn_fuzz.Server.Bridge.Relay.{receive_one-frame, receive_one_fault}
use nn_fuzz.Server.Bridge.Rounds.{marked}
use nn_fuzz.Server.Bridge.Rounds.Delivery.{Signal, sent, pause, messages_sent, Carries}
use nn_fuzz.Server.Bridge.Bus.{
  Bus, broadcast, submit, set_bridge, take_first, Step, receives, brokers, Reach, here, next,
}
use nn_fuzz.Wire.{frame}
use nn_fuzz.Wire.Sending.{server_send_room}

length-frame : (bs : Bytes) → length (frame bs) ≡ 4 + length bs
length-frame bs =
    omega (arith, length-append {0} (to_be_bytes (length bs)) bs, length-to_be_bytes (length bs))

abbrev pub answers : List TcpRemoteNewMessage → List Received
answers ms = map (λ m. inr (some m)) ms

module _ (messages : Codec TcpRemoteNewMessage) where
  -- With room for the frames of foreign messages the inner loop ends and writes them.
  pub forward_room :
      (id : ℕ) (ms : List TcpRemoteNewMessage) (out : Bytes) (s : Socket)
      → Frames messages ms out
      → length out ≤ s.capacity
      → All (λ m. (m.client_id == id) ≡ false) ms
      → (s' : Socket) × (forward messages id (answers ms) s ≡ (ok tt, [], s'))
        × (s'.written ≡ s.written ++ out)
  unfolding forward
  forward_room id [] out s e room all = (s, refl, rw (e, append-nil s.written) refl)
  forward_room id (m ∷ ms) out s (bs, rest, ser, fits, e, fr) room (other, all) =
      let size : length out ≡ (4 + length bs) + length rest =
        ap (λ l. length l) e
        ∙ length-append {0} (frame bs) rest
        ∙ ap (λ n. n + length rest) (length-frame bs) in
      let t = record s {
        written = s.written ++ frame bs;
        capacity = s.capacity - (4 + length bs);
      } in
      let sends = server_send_room messages m s ser fits (omega (arith, size)) in
      let (s', run, wrote) = forward_room id ms rest t fr (omega (arith, size)) all in
      (
        s',
        ground (arith, other, sends, run),
        wrote ∙ append_assoc s.written (frame bs) rest ∙ ap (λ l. s.written ++ l) (sym e),
      )

module _ {L : Libafl} (f : Flags) (events : Codec (Event L)) (g : Gzip)
    (messages : Codec TcpRemoteNewMessage) (running : ℕ → Bool) where
  abbrev pub Reaches : Bus L → Bus L → Type 0
  Reaches = Reach messages f events g running

  Reach-first : {s t u : Bus L} → Step messages f events g running s t → Reaches t u → Reaches s u
  Reach-first st here = next here st
  Reach-first st (next r last) = next (Reach-first st r) last

  pub Reach-trans : {s t u : Bus L} → Reaches s t → Reaches t u → Reaches s u
  Reach-trans r here = r
  Reach-trans r (next q last) = next (Reach-trans r q) last

  module _ (from to : ℕ) (runs : running from ≡ true) (other : (from == to) ≡ false) where
    -- Its network has been heard, and nothing else has changed for the two.
    pub record Heard (ms : List LlmpSend) (s t : Bus L) : Type 0 where
      pub reach : Reaches s t
      pub waits : t.pending from ≡ s.pending from ++ ms
      pub silent : (t.bridge from).stream.incoming ≡ []
      pub same : t.bridge to ≡ s.bridge to

    -- A way to hear all that comes, whatever is known of the bridge.
    abbrev pub Hears : List Signal → Type 0
    Hears items =
        (s : Bus L)
        → (s.bridge from).replies ≡ []
        → Carries messages items (s.bridge from).stream.incoming []
        → (t : Bus L) × Heard (map marked (messages_sent items)) s t

    hear_first :
        (items : List Signal) (s : Bus L) (b' : Bridge) (new : List LlmpSend)
        → receive_one messages from (s.bridge from) ≡ (ok tt, b')
        → b'.outbox ≡ (s.bridge from).outbox ++ new
        → b'.replies ≡ []
        → Carries messages items b'.stream.incoming []
        → Hears items
        → (t : Bus L) × Heard (new ++ map marked (messages_sent items)) s t
    hear_first items s b' new run grown accepts c rest =
        let u = submit from new (set_bridge from b' s) in
        let is : u.bridge from ≡ b' = rw (==_refl from) refl in
        let pending : u.pending from ≡ s.pending from ++ new = rw (==_refl from) refl in
        let (t, h) =
          rest u (ap (λ (b : Bridge). b.replies) is ∙ accepts)
            (subst (λ (b : Bridge). Carries messages items b.stream.incoming []) (sym is) c) in
        (
          t,
          record {
            reach = Reach-first (receives from b' new runs run grown) h.reach;
            waits =
                h.waits
                ∙ ap (λ l. l ++ map marked (messages_sent items)) pending
                ∙ append_assoc (s.pending from) new (map marked (messages_sent items));
            silent = h.silent;
            same = h.same ∙ rw other refl;
          },
        )

    pub hear_all : IsCodec messages → (items : List Signal) → Hears items
    hear_all lawful [] s accepts e = (
      s,
      record { reach = here; waits = sym (append-nil (s.pending from)); silent = e; same = refl },
    )
    hear_all lawful (sent m ∷ items) s accepts (bs, rest, ser, fits, arrived, c) =
        let b = s.bridge from in
        hear_first items s
          (record b {
            stream = record (b.stream) { incoming = rest };
            outbox = b.outbox ++ marked m ∷ [];
          })
          (marked m ∷ [])
          (receive_one-frame messages from lawful m bs rest b ser fits arrived accepts) refl accepts
          c (hear_all lawful items)
    hear_all lawful (pause x ∷ items) s accepts (rest, arrived, c) =
        let b = s.bridge from in
        hear_first items s (record b { stream = record (b.stream) { incoming = rest } }) []
          (receive_one_fault messages from [] x rest b (omega arith) arrived)
          (sym (append-nil b.outbox)) accepts c (hear_all lawful items)

    -- The broker has taken what waited, and nothing else has changed for the two.
    pub record Taken (ms : List LlmpSend) (s t : Bus L) : Type 0 where
      pub reach : Reaches s t
      pub empty : t.pending from ≡ []
      pub same_from : (t.bridge from).stream ≡ (s.bridge from).stream
      pub same_to : (t.bridge to).stream ≡ (s.bridge to).stream
      pub filled : (t.bridge to).inbox ≡ (s.bridge to).inbox ++ answers (map (broadcast from) ms)

    pub take_all :
        (ms : List LlmpSend) (s : Bus L)
        → s.pending from ≡ ms
        → All (λ m. m.tag ≢ llmp_tag_event_to_both) ms
        → (t : Bus L) × Taken ms s t
    take_all [] s none_left all = (
      s,
      record {
        reach = here;
        empty = none_left;
        same_from = refl;
        same_to = refl;
        filled = sym (append-nil (s.bridge to).inbox);
      },
    )
    take_all (m ∷ ms) s first (unread, all) =
        let u = take_first from m ms forward_to_clients s.monitored s in
        let st =
          brokers from m ms forward_to_clients s.monitored first
            (hook_other_tag f events g from m.tag m.flags m.payload s.monitored unread) in
        let (t, taken) = take_all ms u (rw (==_refl from) refl) all in
        (
          t,
          record {
            reach = Reach-first st taken.reach;
            empty = taken.empty;
            same_from = taken.same_from;
            same_to = taken.same_to;
            filled =
                taken.filled
                ∙ append_assoc (s.bridge to).inbox (answers (broadcast from m ∷ []))
                    (answers (map (broadcast from) ms));
          },
        )
