-- ===== src/Journey.antt =====
-- Whole journeys through the program: an input of the network to LLMP, and a fuzzer's event to the
-- network. The parts are nn_connector/src/connector.rs, nn_fuzz/src/connector/server.rs and
-- nn_fuzz/src/llmp/extention.rs.
pub mod Networks
use nn_fuzz.Base.{
  append_cancel, ℕ, ◌==◌, ◌≡◌, sym, ◌∙◌, inl, inr, List, [], ◌∷◌, ◌++◌, none, some, false, arith,
}
use nn_fuzz.Base.Bits.{bit_or}
use nn_fuzz.Base.Text.{Bytes}
use mathlib.Core.Path.{subst, subst₂}
use nn_fuzz.Base.Outcome.{Outcome-cases, ok}
use nn_fuzz.Std.Net.{Socket, IoError, Arrival}
use nn_fuzz.External.{Codec, IsCodec, Gzip, IsGzip, Libafl}
use nn_fuzz.Messages.{TcpRemoteNewMessage, Event, llmp_flag_compressed, llmp_flag_from_nn}
use nn_fuzz.Payload.{Holds, Holds-flags}
use nn_fuzz.Connector.Frame
use nn_fuzz.Connector.Events.{testcase_of, generate_event, send_input, testcase_map, recv_testcase}
use nn_fuzz.Connector.Events.RoundTrip.{generate_event-Holds, recv_testcase-Holds}
use nn_fuzz.Server.Bridge.{Bridge, LlmpSend, forward, receive_one}
use nn_fuzz.Server.Bridge.Relay.{IsMarked, mark_bits, receive_one-frame}
use nn_fuzz.Server.Bridge.Forward.{forward_foreign_inv}
use nn_fuzz.Wire.Sending.{Sent, server_send_inv}
use nn_fuzz.Wire.Exchange.{Carried, carried_frame, client_send_inv}
use nn_fuzz.Llmp.{Flags, IsFlags}
use nn_fuzz.Llmp.Manager.{NnEventManager, Send, fire}
use nn_fuzz.Llmp.Broker.Laws.{flags_of, tag_of, buf_of, fire-Holds}

-- A message as LLMP hands it to its other clients.
abbrev pub delivered : Flags → ℕ → Send → TcpRemoteNewMessage
delivered f client_id s = record {
  client_id = client_id;
  tag = tag_of s;
  flags = flags_of f s;
  payload = buf_of s;
}

module _ {L : Libafl} (events : Codec (Event L)) (g : Gzip) (messages : Codec TcpRemoteNewMessage)
    (io_text : IoError → Bytes) where
  send_input_inv :
      (id : ℕ) (input : Bytes) (s s' : Socket)
      → send_input L events g io_text messages id input s ≡ (ok tt, s')
      → (m : TcpRemoteNewMessage) × (generate_event L events g id input ≡ ok m)
        × (Frame.send_tcp_msg io_text messages m s ≡ (ok tt, s'))
  unfolding send_input
  send_input_inv id input s s' h = elim (Outcome-cases (generate_event L events g id input)) [
    | inl (m, e) ↦ (m, e, ground (arith, e))
    | inr (inl (x, e)) ↦ absurd (ground (arith, e))
    | inr (inr e) ↦ absurd (ground (arith, e))
  ]

  -- With codecs and a compressor that keep their laws, the network's input reaches LLMP: if the
  -- client's `send_input` succeeds, its bytes arrive at the bridge and LLMP takes what it is sent,
  -- the bridge's next receive hands LLMP one message, which carries the mark of the network, holds
  -- the test case of that input and has tag 0.
  pub input_reaches_llmp :
      IsCodec events
      → IsGzip g
      → IsCodec messages
      → (id own : ℕ) (input : Bytes) (s s' : Socket) (b : Bridge) (rest : List Arrival)
      → send_input L events g io_text messages id input s ≡ (ok tt, s')
      → Carried s s' b.stream rest
      → b.replies ≡ []
      → (m : LlmpSend) × (receive_one messages own b ≡ (
        ok tt,
        record b { stream = record (b.stream) { incoming = rest }; outbox = b.outbox ++ m ∷ [] },
      ))
        × IsMarked m
        × Holds events g llmp_flag_compressed (testcase_of L events g input) m.flags m.payload
        × (m.tag ≡ 0)
  input_reaches_llmp lawful gzip framed id own input s s' b rest sent carried accepting =
      let (m, made, wrote) = send_input_inv id input s s' sent in
      let (holds, _, tag) = generate_event-Holds L events g lawful gzip id input m made in
      let (bs, ser, eff) = client_send_inv io_text messages m s s' wrote in
      (
        record { tag = m.tag; flags = bit_or m.flags llmp_flag_from_nn; payload = m.payload },
        receive_one-frame messages own framed m bs rest b ser eff.fits
            (carried_frame s s' b.stream rest bs carried eff) accepting,
        (mark_bits m.flags).0,
        Holds-flags events g llmp_flag_compressed (testcase_of L events g input) m.flags
            (bit_or m.flags llmp_flag_from_nn) m.payload (sym (mark_bits m.flags).1) holds,
        tag,
      )

  -- With codecs, a compressor and flags that keep their laws, and one flag of compression on both
  -- sides, a fuzzer's event reaches the network: if a manager fires an event, the broker delivers
  -- its message to the bridge of another client, and the inner loop of that bridge ends without a
  -- panic, then the network's client that gets those bytes returns the map of the event from
  -- `recv_testcase`.
  pub event_reaches_network :
      (f : Flags)
      → IsFlags f
      → f.compressed ≡ llmp_flag_compressed
      → IsCodec events
      → IsGzip g
      → IsCodec messages
      → (event : Event L) (m m' : NnEventManager L) (own : ℕ) (s s' r : Socket)
        (rest : List Arrival) (send : Send)
      → fire f events g event m ≡ (ok tt, m')
      → m'.llmp.sent ≡ m.llmp.sent ++ send ∷ []
      → (m.llmp.id == own) ≡ false
      → forward messages own (inr (some (delivered f m.llmp.id send)) ∷ inr none ∷ []) s
        ≡ (ok tt, [], s')
      → Carried s s' r rest
      → recv_testcase L events g io_text messages r
        ≡ (ok (testcase_map L events g io_text messages event), record r { incoming = rest })
  event_reaches_network f flags same lawful gzip framed event m m' own s s' r rest send fired sent
        other run carried =
      let (sent', behind, _, holds) = fire-Holds f events g flags event m m' fired in
      let one = append_cancel m.llmp.sent (sent' ∷ []) (send ∷ []) (sym behind ∙ sent) in
      let msg = delivered f m.llmp.id send in
      let (t, wrote, ended) =
        forward_foreign_inv messages own msg (inr none ∷ []) [] s s' other run in
      let (bs, ser, eff) = server_send_inv messages msg s t wrote in
      let sends : sent' ≡ send = cc in
      let ends : t ≡ s' = unfold forward in cc in
      let kept =
        subst₂ (λ flag x. Holds events g flag event (flags_of f x) (buf_of x)) same sends holds in
      recv_testcase-Holds L events g lawful gzip io_text messages framed event msg bs rest r kept
        ser eff.fits (carried_frame s s' r rest bs carried (subst (Sent bs s) ends eff))
