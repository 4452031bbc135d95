-- ===== src/Server/Bridge/Bus/Hearing.antt =====
-- A network that sends whole messages, with pauses between them: what of them its bridge has handed to
-- LLMP, and what is still to be heard.
use nn_fuzz.Base.{
  ℕ, ◌<◌, ◌≡◌, refl, sym, ap, ◌∙◌, inr, List, [], ◌∷◌, ◌++◌, append_assoc, map, arith, length,
}
use mathlib.Core.Path.{subst}
use nn_fuzz.Base.Text.{Bytes}
use nn_fuzz.Base.Outcome.{ok}
use nn_fuzz.Std.Net.{Arrival, arrivals, Socket, u32_mod}
use nn_fuzz.External.{Codec, IsCodec}
use nn_fuzz.Messages.{TcpRemoteNewMessage}
use nn_fuzz.Server.Bridge.{Bridge, forward_all, receive_one}
use nn_fuzz.Server.Bridge.Forward.{forward-Frames}
use nn_fuzz.Server.Bridge.Relay.{receive_one_fault}
use nn_fuzz.Server.Bridge.Rounds.{marked, forward_all_inv, relay_inv}
use nn_fuzz.Server.Bridge.Rounds.Refinement.{map-append}
use nn_fuzz.Server.Bridge.Rounds.Delivery.{Signal, sent, pause, messages_sent, Carries}
use nn_fuzz.Server.Bridge.Bus.{hearing}
use nn_fuzz.Wire.{frame}
use nn_fuzz.Wire.Delivery.{server_recv-frame}
use nn_fuzz.Wire.Faults.{recv_nothing}

messages_sent-append :
    (xs ys : List Signal) → messages_sent (xs ++ ys) ≡ messages_sent xs ++ messages_sent ys
messages_sent-append [] ys = refl
messages_sent-append (sent m ∷ xs) ys = rw (messages_sent-append xs ys)
messages_sent-append (pause e ∷ xs) ys = messages_sent-append xs ys

module _ (messages : Codec TcpRemoteNewMessage) where
  Carries-append :
      (xs ys : List Signal) (incoming more : List Arrival)
      → Carries messages xs incoming []
      → Carries messages ys more []
      → Carries messages (xs ++ ys) (incoming ++ more) []
  Carries-append [] ys incoming more e h = rw e h
  Carries-append (sent m ∷ xs) ys incoming more (bs, left, ser, fits, e, c) h = (
    bs,
    left ++ more,
    ser,
    fits,
    ap (λ q. q ++ more) e ∙ append_assoc (arrivals (frame bs)) left more,
    Carries-append xs ys left more c h,
  )
  Carries-append (pause x ∷ xs) ys incoming more (left, e, c) h =
      (left ++ more, ap (λ q. q ++ more) e, Carries-append xs ys left more c h)

  -- Of the messages that a network has sent, some are heard and handed to LLMP, and the others are still
  -- to be heard.
  pub record IsFed (ms : List TcpRemoteNewMessage) (b : Bridge) : Type 0 where
    pub heard : List TcpRemoteNewMessage
    pub items : List Signal
    pub whole : ms ≡ heard ++ messages_sent items
    pub coming : Carries messages items b.stream.incoming []
    pub handed : b.outbox ≡ map marked heard

  pub forward_all-IsFed :
      (id : ℕ) (ms : List TcpRemoteNewMessage) (b b' : Bridge)
      → forward_all messages id b ≡ (ok tt, b')
      → IsFed ms b
      → IsFed ms b'
  forward_all-IsFed id ms b b' h fed =
      let (run, same_outbox) = forward_all_inv messages id b b' h in
      let (_, _, _, incoming) =
        forward-Frames messages id b.inbox b'.inbox b.stream b'.stream run in
      record {
        heard = fed.heard;
        items = fed.items;
        whole = fed.whole;
        coming = rw incoming fed.coming;
        handed = same_outbox ∙ fed.handed;
      }

  -- The end of the stream, for now.
  receive_nothing :
      (id : ℕ) (b : Bridge)
      → b.stream.incoming ≡ []
      → receive_one messages id b
        ≡ (ok tt, record b { stream = record (b.stream) { incoming = [] } })
  unfolding receive_one
  receive_nothing id b empty = ground (arith, recv_nothing b.stream empty)

  receive_message :
      IsCodec messages
      → (id : ℕ) (b b' : Bridge) (m : TcpRemoteNewMessage) (bs : Bytes) (rest : List Arrival)
      → messages.to_allocvec m ≡ inr bs
      → length bs < u32_mod
      → b.stream.incoming ≡ arrivals (frame bs) ++ rest
      → receive_one messages id b ≡ (ok tt, b')
      → (b'.stream.incoming ≡ rest) × (b'.outbox ≡ b.outbox ++ marked m ∷ [])
  unfolding receive_one
  receive_message lawful id b b' m bs rest ser fits arrived h =
      let t = record (b.stream) { incoming = rest } in
      let (m', decoded, hands, same, _) =
        relay_inv messages id bs (record b { stream = t }) b'
          (ground (arith, server_recv-frame bs rest b.stream fits arrived, h)) in
      let is : m' ≡ m = (let known = lawful.from_bytes-to_allocvec m bs ser in cc) in
      (ap (λ (s : Socket). s.incoming) same, hands ∙ ap (λ x. b.outbox ++ marked x ∷ []) is)

  pub receive_one-IsFed :
      IsCodec messages
      → (id : ℕ) (ms : List TcpRemoteNewMessage) (b b' : Bridge)
      → receive_one messages id b ≡ (ok tt, b')
      → IsFed ms b
      → IsFed ms b'
  receive_one-IsFed lawful id ms b b' h fed = go fed.heard fed.items fed.whole fed.coming fed.handed
    where
      go :
          (heard : List TcpRemoteNewMessage) (items : List Signal)
          → ms ≡ heard ++ messages_sent items
          → Carries messages items b.stream.incoming []
          → b.outbox ≡ map marked heard
          → IsFed ms b'
      go heard [] whole coming handed =
          subst (IsFed ms) (ap (λ r. r.1) (sym (receive_nothing id b coming) ∙ h))
            (record { heard = heard; items = []; whole = whole; coming = refl; handed = handed })
      go heard (pause e ∷ items) whole (rest, arrived, coming) handed =
          subst (IsFed ms)
            (ap (λ r. r.1)
              (sym (receive_one_fault messages id [] e rest b (omega arith) arrived) ∙ h))
            (record {
              heard = heard;
              items = items;
              whole = whole;
              coming = coming;
              handed = handed;
            })
      go heard (sent m ∷ items) whole (bs, rest, ser, fits, arrived, coming) handed =
          let (stays, hands) = receive_message lawful id b b' m bs rest ser fits arrived h in
          record {
            heard = heard ++ m ∷ [];
            items = items;
            whole = whole ∙ sym (append_assoc heard (m ∷ []) (messages_sent items));
            coming = rw stays coming;
            handed =
                hands
                ∙ ap (λ l. l ++ marked m ∷ []) handed
                ∙ sym (map-append marked heard (m ∷ []));
          }

  pub hearing-IsFed :
      (ms ms' : List TcpRemoteNewMessage) (items : List Signal) (more : List Arrival) (b : Bridge)
      → Carries messages items more []
      → ms' ≡ ms ++ messages_sent items
      → IsFed ms b
      → IsFed ms' (hearing more b)
  hearing-IsFed ms ms' items more b c e fed = record {
    heard = fed.heard;
    items = fed.items ++ items;
    whole =
        e
        ∙ ap (λ l. l ++ messages_sent items) fed.whole
        ∙ append_assoc fed.heard (messages_sent fed.items) (messages_sent items)
        ∙ ap (λ l. fed.heard ++ l) (sym (messages_sent-append fed.items items));
    coming = Carries-append fed.items items b.stream.incoming more fed.coming c;
    handed = fed.handed;
  }
