-- ===== src/Server/Bridge/Forward.antt =====
-- The inner loop of `handle_connection`: what of LLMP's messages reaches the network.
use nn_fuzz.Base.{
  append_cancel, ℕ, zero, suc, ◌<◌, ◌==◌, ◌≡◌, refl, sym, ap, ◌∙◌, inl, inr, List, [], ◌∷◌, ◌++◌,
  append_assoc, append-nil, none, some, true, false, not, filter, length, arith, Bool-cases,
}
use nn_fuzz.Base.Text.{Bytes}
use nn_fuzz.Base.Outcome.{ok}
use nn_fuzz.Base.Action.{Action}
use nn_fuzz.Std.Net.{Socket, IoError, Arrival, arrivals, u32_mod}
use nn_fuzz.External.{Codec, IsCodec}
use nn_fuzz.Messages.{TcpRemoteNewMessage, try_from}
use nn_fuzz.Server.Frame.{send_tcp_msg}
use nn_fuzz.Server.Bridge.{Received, forward}
use nn_fuzz.Base.Action.{ends, ◌>>=◌, pure}
use nn_fuzz.External.{try}
use nn_fuzz.Connector.Error.{Error, from_postcard}
use nn_fuzz.Connector.Frame as Client
use nn_fuzz.Wire.{frame}
use nn_fuzz.Wire.Exchange.{Carried}
use nn_fuzz.Wire.Sending.{server_send_inv}
use nn_fuzz.Wire.Delivery.{arrivals-append, client_recv-frame}

-- The messages that LLMP has until it answers that nothing is new.
abbrev pub available : List Received → List TcpRemoteNewMessage
available [] = []
available (inl _ ∷ more) = []
available (inr none ∷ more) = []
available (inr (some m) ∷ more) = m ∷ available more

-- Those that the bridge did not send itself.
abbrev pub foreign : ℕ → List TcpRemoteNewMessage → List TcpRemoteNewMessage
foreign id = filter (λ m. not (m.client_id == id))

module _ (messages : Codec TcpRemoteNewMessage) where
  -- `out` is the frames of the messages, one behind the other.
  abbrev pub Frames : List TcpRemoteNewMessage → Bytes → Type 0
  Frames [] out = out ≡ []
  Frames (m ∷ ms) out =
      (bs : Bytes) × (rest : Bytes) × (messages.to_allocvec m ≡ inr bs)
      × (length bs < u32_mod)
      × (out ≡ frame bs ++ rest)
      × Frames ms rest

  forward-own :
      (id : ℕ) (m : TcpRemoteNewMessage) (more : List Received) (s : Socket)
      → (m.client_id == id) ≡ true
      → forward messages id (inr (some m) ∷ more) s ≡ forward messages id more s
  unfolding forward
  forward-own id m more s own = rw (own, forward)

  pub forward_foreign_inv :
      (id : ℕ) (m : TcpRemoteNewMessage) (more q' : List Received) (s s' : Socket)
      → (m.client_id == id) ≡ false
      → forward messages id (inr (some m) ∷ more) s ≡ (ok tt, q', s')
      → (t : Socket) × (send_tcp_msg messages m s ≡ (ok tt, t))
        × (forward messages id more t ≡ (ok tt, q', s'))
  unfolding forward
  forward_foreign_inv id m more q' s s' other h = elim (ends (send_tcp_msg messages m s)) [
    | inl (_, t, e) ↦ (t, e, ground (arith, e))
    | inr (inl (x, t, e)) ↦ absurd (ground (arith, e))
    | inr (inr (t, e)) ↦ absurd (ground (arith, e))
  ]

  -- A run of the loop that ends without a panic has written the frames of the foreign messages that
  -- were available, each once and in their order, and nothing else.
  pub forward-Frames :
      (id : ℕ) (q q' : List Received) (s s' : Socket)
      → forward messages id q s ≡ (ok tt, q', s')
      → (out : Bytes) × (s'.written ≡ s.written ++ out)
        × Frames (foreign id (available q)) out
        × (s'.incoming ≡ s.incoming)
  unfolding forward
  forward-Frames id [] q' s s' h = ([], ground (arith, append-nil s.written), refl, ground arith)
  forward-Frames id (inl e ∷ more) q' s s' h = cc
  forward-Frames id (inr none ∷ more) q' s s' h =
      ([], ground (arith, append-nil s.written), refl, ground arith)
  forward-Frames id (inr (some m) ∷ more) q' s s' h = elim (Bool-cases (m.client_id == id)) [
    | inl own ↦
        let ih = forward-Frames id more q' s s' (sym (forward-own id m more s own) ∙ h) in
        (ih.0, ih.1, rw own ih.2, ih.3)
    | inr other ↦
        let (t, sent, rest) = forward_foreign_inv id m more q' s s' other h in
        let (bs, serialized, eff) = server_send_inv messages m s t sent in
        let (out, written, frames, same) = forward-Frames id more q' t s' rest in
        (
          frame bs ++ out,
          written
              ∙ ap (λ (w : Bytes). w ++ out) eff.written
              ∙ append_assoc s.written (frame bs) out,
          rw other (bs, out, serialized, eff.fits, refl, frames),
          same ∙ eff.same_incoming,
        )
  ]

  -- A client that receives messages, one after the other.
  pub receive_many : (IoError → Bytes) → ℕ → Action Socket Error (List TcpRemoteNewMessage)
  receive_many io_text zero = pure []
  receive_many io_text (suc n) = do
    buf ← Client.recv_tcp_msg io_text
    m ← try from_postcard (try_from messages buf)
    ms ← receive_many io_text n
    pure (m ∷ ms)

  pub receive_many-Frames :
      IsCodec messages
      → (io_text : IoError → Bytes) (ms : List TcpRemoteNewMessage) (out : Bytes)
        (rest : List Arrival) (r : Socket)
      → Frames ms out
      → r.incoming ≡ arrivals out ++ rest
      → receive_many io_text (length ms) r ≡ (ok ms, record r { incoming = rest })
  unfolding receive_many
  receive_many-Frames lawful io_text [] out rest r fr arrived =
      ap (λ (q : List Arrival). (ok [], record r { incoming = q }))
        (arrived ∙ ap (λ b. arrivals b ++ rest) fr)
  receive_many-Frames lawful io_text (m ∷ ms) out rest r (bs, more, ser, fits, e, fr) arrived =
      let after = record r { incoming = arrivals more ++ rest } in
      let behind =
        arrived
        ∙ ap (λ b. arrivals b ++ rest) e
        ∙ ap (λ q. q ++ rest) (arrivals-append (frame bs) more)
        ∙ append_assoc (arrivals (frame bs)) (arrivals more) rest in
      ground (
        arith,
        client_recv-frame bs (arrivals more ++ rest) r fits behind io_text,
        lawful.from_bytes-to_allocvec m bs ser,
        receive_many-Frames lawful io_text ms more rest after fr refl,
      )

  -- With a codec that keeps its law, what the bridge forwards the network receives: if the inner
  -- loop ends without a panic and what it wrote arrives, reading as many messages as there are
  -- foreign ones available gives exactly those, in their order, and leaves what follows.
  pub forward_delivers :
      IsCodec messages
      → (io_text : IoError → Bytes) (id : ℕ) (q q' : List Received) (s s' r : Socket)
        (rest : List Arrival)
      → forward messages id q s ≡ (ok tt, q', s')
      → Carried s s' r rest
      → receive_many io_text (length (foreign id (available q))) r
        ≡ (ok (foreign id (available q)), record r { incoming = rest })
  forward_delivers lawful io_text id q q' s s' r rest run carried =
      let (out, written, frames, _) = forward-Frames id q q' s s' run in
      receive_many-Frames lawful io_text (foreign id (available q)) out rest r frames (
        carried.arrived
        ∙ ap (λ b. arrivals b ++ rest)
            (append_cancel s.written carried.bytes out (sym carried.sent ∙ written)))
