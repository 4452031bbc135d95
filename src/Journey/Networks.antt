-- ===== src/Journey/Networks.antt =====
-- An input's journey from one network to another: nn_connector/src/connector.rs, the two bridges of
-- nn_fuzz/src/connector/server.rs and the broker of nn_fuzz/src/llmp/extention.rs between them.
use nn_fuzz.Base.{
  append_cancel, ℕ, ◌==◌, ◌≡◌, sym, ap, ◌∙◌, inr, List, [], ◌∷◌, ◌++◌, none, some, false, arith,
  ==_refl,
}
use mathlib.Core.Path.{subst}
use nn_fuzz.Base.Text.{Bytes, codes}
use nn_fuzz.Base.Outcome.{ok}
use nn_fuzz.Std.Net.{Socket, IoError, Arrival}
use nn_fuzz.External.{Codec, IsCodec, Gzip, IsGzip, Libafl}
use nn_fuzz.Messages.{TcpRemoteNewMessage, Event, llmp_flag_compressed}
use nn_fuzz.Payload.{Holds}
use nn_fuzz.Connector.Events.{testcase_of, send_input, testcase_map, recv_testcase}
use nn_fuzz.Connector.Events.RoundTrip.{recv_testcase-Holds}
use nn_fuzz.Server.Bridge.Bus.{broadcast}
use nn_fuzz.Server.Bridge.{Bridge, LlmpSend, forward, receive_one}
use nn_fuzz.Server.Bridge.Forward.{forward_foreign_inv}
use nn_fuzz.Wire.Sending.{Sent, server_send_inv}
use nn_fuzz.Wire.Exchange.{Carried, carried_frame}
use nn_fuzz.Llmp.{Flags}
use nn_fuzz.Llmp.Broker.{MonitorCall, forward_to_clients, hook}
use nn_fuzz.Llmp.Broker.Laws.{hook_other_tag}
use nn_fuzz.Journey.{input_reaches_llmp}

module _ {L : Libafl} (events : Codec (Event L)) (g : Gzip) (messages : Codec TcpRemoteNewMessage)
    (io_text : IoError → Bytes) where
  -- What a bridge of another client forwards of a message that holds an event, its network receives.
  delivered_to :
      IsCodec events
      → IsGzip g
      → IsCodec messages
      → (other : ℕ) (event : Event L) (msg : TcpRemoteNewMessage) (t t' r : Socket)
        (rest : List Arrival)
      → Holds events g llmp_flag_compressed event msg.flags msg.payload
      → (msg.client_id == other) ≡ false
      → forward messages other (inr (some msg) ∷ inr none ∷ []) t ≡ (ok tt, [], t')
      → Carried t t' r rest
      → recv_testcase L events g io_text messages r
        ≡ (ok (testcase_map L events g io_text messages event), record r { incoming = rest })
  delivered_to lawful gzip framed other event msg t t' r rest holds foreign run carried =
      let (u, wrote, ended) =
        forward_foreign_inv messages other msg (inr none ∷ []) [] t t' foreign run in
      let (bs, ser, eff) = server_send_inv messages msg t u wrote in
      let ends : u ≡ t' = unfold forward in cc in
      recv_testcase-Holds L events g lawful gzip io_text messages framed event msg bs rest r holds
        ser eff.fits (carried_frame t t' r rest bs carried (subst (Sent bs t) ends eff))

  map_of_input :
      ((bs : Bytes) → L.input_bytes (L.from_buf bs) ≡ bs)
      → (input : Bytes)
      → testcase_map L events g io_text messages (testcase_of L events g input)
        ≡ (codes "input", input) ∷ (codes "observers", []) ∷ []
  unfolding testcase_map
  map_of_input kept input =
      ap (λ (bs : Bytes). (codes "input", bs) ∷ (codes "observers", []) ∷ []) (kept input)

  -- With codecs, a compressor and inputs that keep their laws, an input travels from one network to
  -- another: if the client's `send_input` succeeds, its bytes arrive at the bridge, LLMP takes what it
  -- is sent, and the bridge's receive hands it one message, then the broker forwards that message
  -- without a call of its monitor; the bridge does not send it back to its own network; and if the
  -- inner loop of the bridge of another client ends without a panic on it, the network that gets
  -- those bytes returns the input, and no observers, from `recv_testcase`.
  pub network_reaches_network :
      IsCodec events
      → IsGzip g
      → IsCodec messages
      → ((bs : Bytes) → L.input_bytes (L.from_buf bs) ≡ bs)
      → (f : Flags) (id own other : ℕ) (input : Bytes) (s s' t t' u r : Socket) (b b' : Bridge)
        (rest rest' : List Arrival) (m : LlmpSend) (trace : List (MonitorCall L))
      → send_input L events g io_text messages id input s ≡ (ok tt, s')
      → Carried s s' b.stream rest
      → b.replies ≡ []
      → receive_one messages own b ≡ (ok tt, b')
      → b'.outbox ≡ b.outbox ++ m ∷ []
      → (own == other) ≡ false
      → forward messages other (inr (some (broadcast own m)) ∷ inr none ∷ []) t ≡ (ok tt, [], t')
      → Carried t t' r rest'
      → (hook f events g own m.tag m.flags m.payload trace ≡ (ok forward_to_clients, trace))
        × (forward messages own (inr (some (broadcast own m)) ∷ inr none ∷ []) u ≡ (ok tt, [], u))
        × (recv_testcase L events g io_text messages r ≡ (
          ok ((codes "input", input) ∷ (codes "observers", []) ∷ []),
          record r { incoming = rest' },
        ))
  network_reaches_network lawful gzip framed kept f id own other input s s' t t' u r b b' rest rest'
        m trace sent carried accepting received handed foreign run carried' =
      let (m0, handing, _, holds, tag) =
        input_reaches_llmp events g messages io_text lawful gzip framed id own input s s' b rest
          sent carried accepting in
      let one : m0 ∷ [] ≡ m ∷ [] =
        append_cancel b.outbox (m0 ∷ []) (m ∷ [])
          (ap (λ x. x.1.outbox) (sym handing ∙ received) ∙ handed) in
      let same : m0 ≡ m = cc in
      (
        hook_other_tag f events g own m.tag m.flags m.payload trace
            (omega (arith, ap (λ (x : LlmpSend). x.tag) same, tag)),
        unfold forward in rw (==_refl own, forward),
        delivered_to lawful gzip framed other (testcase_of L events g input) (broadcast own m) t t'
              r rest'
              (subst
                (λ (x : LlmpSend).
                  Holds events g llmp_flag_compressed (testcase_of L events g input) x.flags
                    x.payload)
                same holds)
              foreign run carried'
            ∙ ap (λ map. (ok map, record r { incoming = rest' })) (map_of_input kept input),
      )
