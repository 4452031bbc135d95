-- ===== src/Server/Bridge/Relay.antt =====
-- The other half of `handle_connection`: what of the network's messages reaches LLMP.
use nn_fuzz.Base.{
  ℕ, zero, suc, ◌<◌, ◌≡◌, inl, inr, List, [], ◌∷◌, ◌++◌, length, arith, All, All-append, ⊎-cases,
}
use nn_fuzz.Base.Bits.{bit_and, bit_or, bit_and-one, bit_and-four, bit_or-four}
use nn_fuzz.Base.Text.{Bytes}
use nn_fuzz.Base.Outcome.{ok}
use nn_fuzz.Base.Action.{ends, >>=-keeps}
use nn_fuzz.Std.Net.{IoError, Arrival, fault, arrivals, u32_mod}
use nn_fuzz.External.{Codec, IsCodec}
use nn_fuzz.Messages.{TcpRemoteNewMessage, llmp_flag_from_nn, llmp_flag_compressed}
use nn_fuzz.Server.Frame.{recv_tcp_msg}
use nn_fuzz.Server.Bridge.{
  Bridge, LlmpSend, send_buf, relay, forward_all, receive_one, round, rounds,
}
use nn_fuzz.Wire.{frame}
use nn_fuzz.Wire.Delivery.{server_recv-frame}
use nn_fuzz.Wire.Faults.{recv_fault_in_header}

-- The mark of a message that came from a network.
abbrev pub IsMarked : LlmpSend → Type 0
IsMarked m = bit_and m.flags llmp_flag_from_nn ≡ llmp_flag_from_nn

-- Marking sets the bit, and leaves the bit of compression alone.
pub mark_bits :
    (f : ℕ)
    → (bit_and (bit_or f llmp_flag_from_nn) llmp_flag_from_nn ≡ llmp_flag_from_nn)
      × (bit_and (bit_or f llmp_flag_from_nn) llmp_flag_compressed ≡ bit_and f llmp_flag_compressed)
mark_bits f = (
  omega (arith, bit_or-four f, bit_and-four (bit_or f 4)),
  omega (arith, bit_or-four f, bit_and-one (bit_or f 4), bit_and-one f),
)

module _ (messages : Codec TcpRemoteNewMessage) (id : ℕ) where
  send_buf-IsMarked :
      (m : LlmpSend) (b : Bridge)
      → IsMarked m
      → All IsMarked b.outbox
      → All IsMarked (send_buf messages id m b).1.outbox
  send_buf-IsMarked m b hm h = ground (arith, All-append IsMarked b.outbox (m ∷ []) h (hm, tt))

  relay-IsMarked :
      (val : Bytes) (b : Bridge)
      → All IsMarked b.outbox
      → All IsMarked (relay messages id val b).1.outbox
  relay-IsMarked val b h = elim (⊎-cases (messages.from_bytes val)) [
    | inl (_, e) ↦ rw (e, relay) h
    | inr (m, e) ↦
        rw (e, relay)
          (send_buf-IsMarked
            (record { tag = m.tag; flags = bit_or m.flags llmp_flag_from_nn; payload = m.payload })
            b (mark_bits m.flags).0 h)
  ]

  receive_one-IsMarked :
      (b : Bridge) → All IsMarked b.outbox → All IsMarked (receive_one messages id b).1.outbox
  unfolding receive_one
  receive_one-IsMarked b h = elim (ends (recv_tcp_msg b.stream)) [
    | inl (val, t, e) ↦
        rw (e, receive_one) (relay-IsMarked val (record b { stream = (recv_tcp_msg b.stream).1 }) h)
    | inr (inl (x, t, e)) ↦ rw (e, receive_one) h
    | inr (inr (t, e)) ↦ rw (e, receive_one) h
  ]

  round-IsMarked :
      (b : Bridge) → All IsMarked b.outbox → All IsMarked (round messages id b).1.outbox
  unfolding round
  round-IsMarked b h =
      >>=-keeps (λ s. All IsMarked s.outbox) (forward_all messages id)
        (λ _. receive_one messages id) b h (λ _. receive_one-IsMarked)

  -- If every message handed to LLMP so far carries the mark, then, whatever the network and LLMP
  -- do, over any number of rounds every message that the bridge hands to LLMP carries it, also if
  -- the run ends in a panic.
  rounds-IsMarked :
      (n : ℕ) (b : Bridge) → All IsMarked b.outbox → All IsMarked (rounds messages id n b).1.outbox
  unfolding rounds
  rounds-IsMarked zero b h = h
  rounds-IsMarked (suc n) b h =
      >>=-keeps (λ s. All IsMarked s.outbox) (round messages id) (λ _. rounds messages id n) b
        (round-IsMarked b h) (λ _. rounds-IsMarked n)

  -- With a codec that keeps its law, a whole message of less than 2 to the 32 bytes that arrives
  -- while LLMP takes what it is sent is handed to LLMP with its tag, its payload and its flags
  -- with the mark added; the read does not go past it, and nothing else of the bridge changes.
  pub receive_one-frame :
      IsCodec messages
      → (m : TcpRemoteNewMessage) (bs : Bytes) (rest : List Arrival) (b : Bridge)
      → messages.to_allocvec m ≡ inr bs
      → length bs < u32_mod
      → b.stream.incoming ≡ arrivals (frame bs) ++ rest
      → b.replies ≡ []
      → receive_one messages id b ≡ (
        ok tt,
        record b {
          stream = record (b.stream) { incoming = rest };
          outbox =
              b.outbox
              ++ record {
                tag = m.tag;
                flags = bit_or m.flags llmp_flag_from_nn;
                payload = m.payload;
              }
                ∷ [];
        },
      )
  unfolding receive_one
  receive_one-frame lawful m bs rest b ser fits arrived accepting = ground (
    arith,
    server_recv-frame bs rest b.stream fits arrived,
    lawful.from_bytes-to_allocvec m bs ser,
    accepting,
  )

  -- A fault while no more than a part of the length has arrived, such as the expired timeout of a
  -- silent network, is ignored: the bridge goes on, and only the bytes of that part are gone.
  pub receive_one_fault :
      (head : Bytes) (e : IoError) (rest : List Arrival) (b : Bridge)
      → length head < 4
      → b.stream.incoming ≡ arrivals head ++ fault e ∷ rest
      → receive_one messages id b
        ≡ (ok tt, record b { stream = record (b.stream) { incoming = rest } })
  unfolding receive_one
  receive_one_fault head e rest b h hs =
      ground (arith, recv_fault_in_header head e rest b.stream h hs)
