-- ===== src/Wire.antt =====
-- The framed stream that both crates speak: what the helpers of nn_fuzz/src/connector/server.rs and
-- those of nn_connector/src/connector.rs make of each other's bytes.
pub mod Sending
pub mod Delivery
pub mod Exchange
pub mod Agreement
pub mod Faults
use nn_fuzz.Base.{ℕ, ◌<◌, List, ◌++◌, length}
use nn_fuzz.Base.Text.{Bytes}
use nn_fuzz.Std.Net.{Arrival, byte, fault, to_be_bytes}

-- The specification of a message on the wire.
abbrev pub frame : Bytes → Bytes
frame bs = to_be_bytes (length bs) ++ bs

-- A byte that arrives is below 256.
abbrev pub IsByte : Arrival → Type 0
IsByte (byte b) = b < 256
IsByte (fault _) = Unit
