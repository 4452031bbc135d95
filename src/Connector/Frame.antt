-- ===== src/Connector/Frame.antt =====
-- The helper functions of nn_connector/src/connector.rs, the client's copies of the framing.
use nn_fuzz.Base.{◌++◌, ◌-◌, ◌%◌, ltb, length, if◌then◌else◌}
use nn_fuzz.Base.Text.{Bytes, codes}
use nn_fuzz.Base.Action.{Action, ◌>>=◌, ◌>>◌, throw, convert, expecting}
use nn_fuzz.Std.Decimal.{to_string}
use nn_fuzz.Std.Net.{IoError, Socket, read_exact, write_all, to_be_bytes, from_be_bytes, u32_mod}
use nn_fuzz.External.{Codec, try}
use nn_fuzz.Connector.Error.{Error, illegal_state, from_postcard, from_io}

abbrev pub Io : Type 0 → Type 0
Io = Action Socket Error

-- `io_text` is the standard library's print of an I/O error.
module _ (io_text : IoError → Bytes) where
  unfoldable pub send_tcp_msg : {T : Type 0} → Codec T → T → Io (Unit {0})
  send_tcp_msg c msg = do
    bytes ← try from_postcard (c.to_allocvec msg)
    if ltb (u32_mod - 1) (length bytes)
        then throw (
            illegal_state (
              codes "Trying to send message a tcp message > u32! (size: "
              ++ to_string (length bytes)
              ++ codes ")"))
        else (convert (from_io io_text) (write_all (to_be_bytes (length bytes % u32_mod)))
            >> convert (from_io io_text) (write_all bytes))

  unfoldable pub recv_tcp_msg : Io Bytes
  recv_tcp_msg = do
    size_bytes ← convert (from_io io_text) (read_exact 4)
    expecting (read_exact (from_be_bytes size_bytes))
