-- ===== src/Connector/Error.antt =====
-- nn_connector/src/error.rs: the client's errors, their texts and the conversions into them.
use nn_fuzz.Base.{◌++◌}
use nn_fuzz.Base.Text.{Bytes, codes}
use nn_fuzz.Base.Outcome.{Outcome, err, panic}
use nn_fuzz.External.{LibaflError, compression}
use nn_fuzz.Std.Net.{IoError}

pub data Error : Type 0 where
  io_error invalid_format illegal_state serialize_error compression_error : Bytes → Error
  not_available : Error

-- `writeln!` ends each text with a line feed.
unfoldable pub display : Error → Bytes
display (io_error e) = codes "IO error: " ++ e ++ codes "\n"
display (invalid_format e) = codes "Invalid format error: " ++ e ++ codes "\n"
display (illegal_state e) = codes "Illegal program state: " ++ e ++ codes "\n"
display (serialize_error e) = codes "Serialization error: " ++ e ++ codes "\n"
display (compression_error e) = codes "Compression error: " ++ e ++ codes "\n"
display not_available = codes "Resource is unavailable" ++ codes "\n"

-- `impl From<postcard::Error>`; a postcard error is known by its text.
abbrev pub from_postcard : Bytes → Error
from_postcard e = serialize_error e

-- `impl From<io::Error>`, with the text that the standard library prints for an error.
abbrev pub from_io : (IoError → Bytes) → IoError → Error
from_io io_text e = io_error (io_text e)

-- `impl From<libafl::Error>`: any error but one of compression is `unreachable!()`.
unfoldable pub from_libafl {ℓ} : {A : Type ℓ} → LibaflError → Outcome Error A
from_libafl (compression _) = err (compression_error (codes "error while compressing buffer"))
from_libafl _ = panic
