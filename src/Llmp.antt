-- ===== src/Llmp.antt =====
-- nn_fuzz/src/llmp: the event managers, the broker that hands its messages to the network's bridge,
-- and the manager that starts the broker.
pub mod Manager
pub mod Restorer
pub mod Broker
pub mod Restarting
use nn_fuzz.Base.{ℕ, ◌==◌, ◌≡◌, true, false}
use nn_fuzz.Base.Bits.{bit_and, bit_or}

abbrev pub llmp_tag_event_to_both : ℕ
llmp_tag_event_to_both = 0x002B_0741

abbrev pub compress_threshold : ℕ
compress_threshold = 1024

-- LibAFL's flag words: those that extention.rs imports, and those of a message that `send_buf` sends.
pub record Flags : Type 0 where
  pub initialized : ℕ
  pub compressed : ℕ
  pub of_send_buf : ℕ

-- The flag of compression can be added and read, and `send_buf` does not set it.
pub record IsFlags (f : Flags) : Type 0 where
  pub added : (bit_and (bit_or f.initialized f.compressed) f.compressed == f.compressed) ≡ true
  pub absent : (bit_and f.of_send_buf f.compressed == f.compressed) ≡ false
