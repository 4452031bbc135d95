-- ===== src/Wire/Exchange.antt =====
-- A successful send on one side and a receive on the other.
use nn_fuzz.Base.{append_cancel, ◌≡◌, ap, sym, ◌∙◌, inr, List, ◌++◌}
use nn_fuzz.Base.Text.{Bytes}
use nn_fuzz.Base.Outcome.{ok}
use nn_fuzz.Std.Net.{IoError, Arrival, arrivals, Socket}
use nn_fuzz.External.{Codec, IsCodec}
use nn_fuzz.Server.Frame
use nn_fuzz.Connector.Frame as Client
use nn_fuzz.Wire.{frame}
use nn_fuzz.Wire.Sending.{Sent, server_send_inv}
use nn_fuzz.Wire.Agreement.{blind, blind-eq-ok, senders_agree}
use nn_fuzz.Wire.Delivery.{server_recv-frame, client_recv-frame}

-- What came out of the sender's socket reaches the receiver's, with more behind it.
pub record Carried (s s' r : Socket) (rest : List Arrival) : Type 0 where
  pub bytes : Bytes
  pub sent : s'.written ≡ s.written ++ bytes
  pub arrived : r.incoming ≡ arrivals bytes ++ rest

-- What a send wrote arrives as one frame.
pub carried_frame :
    (s s' r : Socket) (rest : List Arrival) (bs : Bytes)
    → Carried s s' r rest
    → Sent bs s s'
    → r.incoming ≡ arrivals (frame bs) ++ rest
carried_frame s s' r rest bs carried sent =
    carried.arrived
    ∙ ap (λ b. arrivals b ++ rest)
        (append_cancel s.written carried.bytes (frame bs) (sym carried.sent ∙ sent.written))

pub client_send_inv :
    (io_text : IoError → Bytes) {T : Type 0} (c : Codec T) (msg : T) (s s' : Socket)
    → Client.send_tcp_msg io_text c msg s ≡ (ok tt, s')
    → (bs : Bytes) × (c.to_allocvec msg ≡ inr bs) × Sent bs s s'
client_send_inv io_text c msg s s' h =
    server_send_inv c msg s s' (blind-eq-ok _ (sym (senders_agree io_text c msg s).1 ∙ ap blind h))

module _ (io_text : IoError → Bytes) {T : Type 0} (c : Codec T) (lawful : IsCodec c) (msg : T)
    (s s' r : Socket) (rest : List Arrival) (carried : Carried s s' r rest) where
  -- With a codec that keeps its law, what the server sends the client receives: if the send
  -- succeeds and its bytes arrive, the receive returns a text that deserializes to the message,
  -- and leaves what follows it.
  pub client_receives :
      Frame.send_tcp_msg c msg s ≡ (ok tt, s')
      → (bs : Bytes) × (Client.recv_tcp_msg io_text r ≡ (ok bs, record r { incoming = rest }))
        × (c.from_bytes bs ≡ inr msg)
  client_receives h =
      let (bs, e, sent) = server_send_inv c msg s s' h in
      (
        bs,
        client_recv-frame bs rest r sent.fits (carried_frame s s' r rest bs carried sent) io_text,
        lawful.from_bytes-to_allocvec msg bs e,
      )

  -- With a codec that keeps its law, what the client sends the server receives: if the send
  -- succeeds and its bytes arrive, the receive returns a text that deserializes to the message,
  -- and leaves what follows it.
  pub server_receives :
      Client.send_tcp_msg io_text c msg s ≡ (ok tt, s')
      → (bs : Bytes) × (Frame.recv_tcp_msg r ≡ (ok bs, record r { incoming = rest }))
        × (c.from_bytes bs ≡ inr msg)
  server_receives h =
      let (bs, e, sent) = client_send_inv io_text c msg s s' h in
      (
        bs,
        server_recv-frame bs rest r sent.fits (carried_frame s s' r rest bs carried sent),
        lawful.from_bytes-to_allocvec msg bs e,
      )
