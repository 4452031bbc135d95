-- ===== src/Server/Frame.antt =====
-- The helper functions of nn_fuzz/src/connector/server.rs: a message is four bytes of its length,
-- big-endian, and its serialization.
use nn_fuzz.Base.{◌++◌, ltb, length, if◌then◌else◌}
use nn_fuzz.Base.Text.{Bytes, codes}
use nn_fuzz.Base.Action.{Action, ◌>>=◌, ◌>>◌, throw, convert, expecting}
use nn_fuzz.Std.Decimal.{to_string}
use nn_fuzz.Std.Net.{Socket, read_exact, write_all, to_be_bytes, from_be_bytes, u32_mod}
use nn_fuzz.External.{LibaflError, illegal_state, serialize, file, Codec, try}

abbrev pub Io : Type 0 → Type 0
Io = Action Socket LibaflError

module _ {T : Type 0} (c : Codec T) where
  -- `write_all` with the conversion of `std::io::Error`.
  unfoldable pub send_tcp_msg : T → Io (Unit {0})
  send_tcp_msg msg = do
    bytes ← try serialize (c.to_allocvec msg)
    if ltb (length bytes) u32_mod
        then (convert file (write_all (to_be_bytes (length bytes)))
            >> convert file (write_all bytes))
        else throw (
            illegal_state (
              codes "Trying to send message a tcp message > u32! (size: "
              ++ to_string (length bytes)
              ++ codes ")"))

  unfoldable pub send_tcp_message : T → Io (Unit {0})
  send_tcp_message msg = do
    bytes ← try serialize (c.to_allocvec msg)
    if ltb (length bytes) u32_mod
        then (convert file (write_all (to_be_bytes (length bytes)))
            >> convert file (write_all bytes))
        else throw (
            illegal_state (
              codes "Trying to send a tcp message > u32 (size: "
              ++ to_string (length bytes)
              ++ codes ")"))

-- An error while the length is read is returned; one while the body is read panics.
unfoldable pub recv_tcp_msg : Io Bytes
recv_tcp_msg = do
  size_bytes ← convert file (read_exact 4)
  expecting (read_exact (from_be_bytes size_bytes))

unfoldable pub recv_tcp_message : Io Bytes
recv_tcp_message = do
  size_bytes ← convert file (read_exact 4)
  expecting (read_exact (from_be_bytes size_bytes))
