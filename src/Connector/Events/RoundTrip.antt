-- ===== src/Connector/Events/RoundTrip.antt =====
-- Events that are generated and decoded, and the map that the client makes of a fuzzer's event.
use nn_fuzz.Base.{ℕ, ◌<◌, ◌≡◌, refl, inl, inr, List, ◌++◌, none, some, length, arith, ⊎-cases}
use nn_fuzz.Base.Text.{Bytes}
use nn_fuzz.Base.Outcome.{ok}
use nn_fuzz.Std.Net.{Socket, IoError, Arrival, arrivals, u32_mod}
use nn_fuzz.External.{Codec, IsCodec, Gzip, IsGzip, Libafl}
use nn_fuzz.Messages.{TcpRemoteNewMessage, Event, llmp_flag_compressed, compress_threshold}
use nn_fuzz.Connector.Events.{
  testcase_of, generate_event, decode_event, testcase_map, recv_event, recv_testcase,
}
use nn_fuzz.Payload.{Holds, plain, compressed}
use nn_fuzz.Wire.{frame}
use nn_fuzz.Wire.Delivery.{client_recv-frame}

module _ (L : Libafl) (events : Codec (Event L)) (g : Gzip) where
  module _ (lawful : IsCodec events) (gzip : IsGzip g) where
    -- A message that holds an event is decoded to it.
    pub decode_event-Holds :
        (e : Event L) (m : TcpRemoteNewMessage)
        → Holds events g llmp_flag_compressed e m.flags m.payload
        → decode_event L events g m ≡ ok e
    unfolding decode_event
    decode_event-Holds e m (plain ser flag) =
        ground (arith, ser, flag, lawful.from_bytes-to_allocvec e m.payload ser)
    decode_event-Holds e m (compressed t s ser comp flag) =
        ground (
          arith,
          gzip.decompress-compress t s m.payload comp,
          lawful.from_bytes-to_allocvec e s ser,
        )

    -- `generate_event` makes a message of the client that holds the test case of the input, with the
    -- default tag.
    pub generate_event-Holds :
        (id : ℕ) (buf : Bytes) (m : TcpRemoteNewMessage)
        → generate_event L events g id buf ≡ ok m
        → Holds events g llmp_flag_compressed (testcase_of L events g buf) m.flags m.payload
          × (m.client_id ≡ id)
          × (m.tag ≡ 0)
    unfolding generate_event
    generate_event-Holds id buf m h =
        elim (⊎-cases (events.to_allocvec (testcase_of L events g buf))) [
          | inl (_, e) ↦ absurd (ground (arith, e))
          | inr (ser, e) ↦ elim (⊎-cases (g.compress compress_threshold ser)) [
            | inl (x, ce) ↦ absurd (ground (arith, e, ce))
            | inr (none, ce) ↦
                let same : m ≡ record { client_id = id; tag = 0; flags = 0; payload = ser } =
                  ground (arith, e, ce) in
                rw same (plain e refl, refl, refl)
            | inr (some z, ce) ↦
                let same : m ≡ record { client_id = id; tag = 0; flags = 1; payload = z } =
                  ground (arith, e, ce) in
                rw same (compressed compress_threshold ser e ce refl, refl, refl)
          ]
        ]

    -- The network's side decodes its own kind of message: what `generate_event` makes of an input is
    -- decoded to the test case of that input.
    pub decode_event-generate_event :
        (id : ℕ) (buf : Bytes) (m : TcpRemoteNewMessage)
        → generate_event L events g id buf ≡ ok m
        → decode_event L events g m ≡ ok (testcase_of L events g buf)
    decode_event-generate_event id buf m h =
        decode_event-Holds (testcase_of L events g buf) m (generate_event-Holds id buf m h).0

    -- A message that holds an event and arrives as one frame is returned by `recv_testcase` as the
    -- map of that event, and what follows it stays unread.
    pub recv_testcase-Holds :
        (io_text : IoError → Bytes) (messages : Codec TcpRemoteNewMessage)
        → IsCodec messages
        → (e : Event L) (m : TcpRemoteNewMessage) (bs : Bytes) (rest : List Arrival) (r : Socket)
        → Holds events g llmp_flag_compressed e m.flags m.payload
        → messages.to_allocvec m ≡ inr bs
        → length bs < u32_mod
        → r.incoming ≡ arrivals (frame bs) ++ rest
        → recv_testcase L events g io_text messages r
          ≡ (ok (testcase_map L events g io_text messages e), record r { incoming = rest })
    unfolding recv_testcase recv_event
    recv_testcase-Holds io_text messages framed e m bs rest r holds ser fits arrived =
        unfold testcase_map in
        ground (
          arith,
          client_recv-frame bs rest r fits arrived io_text,
          framed.from_bytes-to_allocvec m bs ser,
          decode_event-Holds e m holds,
        )
