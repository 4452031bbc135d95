-- ===== src/Wire/Delivery.antt =====
-- What a side receives of a frame that arrives.
use nn_fuzz.Base.{◌<◌, ◌≡◌, refl, sym, ◌∙◌, List, [], ◌∷◌, ◌++◌, append_assoc, length, arith}
use nn_fuzz.Base.Text.{Bytes}
use nn_fuzz.Base.Outcome.{ok}
use nn_fuzz.Std.Net.{
  IoError, Arrival, arrivals, Socket, read_exact, u32_mod, to_be_bytes, from_be_bytes,
}
use nn_fuzz.Std.Net.Laws.{from_be_bytes-to_be_bytes, length-to_be_bytes, read_exact-arrivals}
use nn_fuzz.Server.Frame
use nn_fuzz.Connector.Frame as Client
use nn_fuzz.Wire.{frame}

pub arrivals-append : (xs ys : Bytes) → arrivals (xs ++ ys) ≡ arrivals xs ++ arrivals ys
arrivals-append [] ys = refl
arrivals-append (x ∷ xs) ys = rw (arrivals-append xs ys)

pub arrivals-frame :
    (bs : Bytes) (rest : List Arrival)
    → arrivals (frame bs) ++ rest ≡ arrivals (to_be_bytes (length bs)) ++ (arrivals bs ++ rest)
arrivals-frame bs rest = rw (arrivals-append (to_be_bytes (length bs)) bs, append_assoc)

module _ (bs : Bytes) (rest : List Arrival) (r : Socket) (fits : length bs < u32_mod)
    (arrived : r.incoming ≡ arrivals (frame bs) ++ rest) where
  header_read :
      read_exact 4 r ≡ (ok (to_be_bytes (length bs)), record r { incoming = arrivals bs ++ rest })
  header_read =
      read_exact-arrivals (to_be_bytes (length bs)) 4 (arrivals bs ++ rest) r
        (sym (length-to_be_bytes (length bs))) (arrived ∙ arrivals-frame bs rest)

  body_read :
      read_exact
        (from_be_bytes (to_be_bytes (length bs)))
        (record r { incoming = arrivals bs ++ rest })
      ≡ (ok bs, record r { incoming = rest })
  body_read =
      read_exact-arrivals bs _ rest (record r { incoming = arrivals bs ++ rest })
        (from_be_bytes-to_be_bytes (length bs) fits) refl

  pub server_recv-frame : Frame.recv_tcp_msg r ≡ (ok bs, record r { incoming = rest })
  unfolding Frame.recv_tcp_msg
  server_recv-frame = ground (arith, header_read, body_read)

  pub server_recv_message-frame : Frame.recv_tcp_message r ≡ (ok bs, record r { incoming = rest })
  unfolding Frame.recv_tcp_message
  server_recv_message-frame = ground (arith, header_read, body_read)

  pub client_recv-frame :
      (io_text : IoError → Bytes)
      → Client.recv_tcp_msg io_text r ≡ (ok bs, record r { incoming = rest })
  unfolding Client.recv_tcp_msg
  client_recv-frame io_text = ground (arith, header_read, body_read)
