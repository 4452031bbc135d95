-- ===== src/Wire/Sending.antt =====
-- What a send writes, on every branch.
use nn_fuzz.Base.{◌+◌, ◌-◌, ◌≤◌, ◌<◌, ◌≡◌, inl, inr, ◌++◌, append_assoc, length, arith, ⊎-cases}
use nn_fuzz.Base.Text.{Bytes}
use nn_fuzz.Base.Outcome.{ok}
use nn_fuzz.Std.Net.{Socket, write_all, u32_mod, to_be_bytes}
use nn_fuzz.Std.Net.Laws.{length-to_be_bytes}
use nn_fuzz.External.{Codec}
use nn_fuzz.Server.Frame
use nn_fuzz.Wire.{frame}

-- What a successful send of a message with the serialization `bs` has done to the stream.
pub record Sent (bs : Bytes) (s s' : Socket) : Type 0 where
  pub fits : length bs < u32_mod
  pub written : s'.written ≡ s.written ++ frame bs
  pub same_incoming : s'.incoming ≡ s.incoming
  pub room : s'.capacity + 4 + length bs ≡ s.capacity

module _ {T : Type 0} (c : Codec T) (msg : T) (s s' : Socket) where
  pub server_send_inv :
      Frame.send_tcp_msg c msg s ≡ (ok tt, s')
      → (bs : Bytes) × (c.to_allocvec msg ≡ inr bs) × Sent bs s s'
  unfolding Frame.send_tcp_msg write_all
  server_send_inv h = elim (⊎-cases (c.to_allocvec msg)) [
    | inl (x, e) ↦ absurd (ground (arith, e))
    | inr (bs, e) ↦ (
      bs,
      e,
      ground (
        arith,
        length-to_be_bytes (length bs),
        append_assoc s.written (to_be_bytes (length bs)) bs,
      ),
    )
  ]

module _ {T : Type 0} (c : Codec T) (msg : T) (s : Socket) {bs : Bytes}
    (serialized : c.to_allocvec msg ≡ inr bs) where
  pub server_send_room :
      length bs < u32_mod
      → 4 + length bs ≤ s.capacity
      → Frame.send_tcp_msg c msg s ≡ (
        ok tt,
        record s { written = s.written ++ frame bs; capacity = s.capacity - (4 + length bs) },
      )
  unfolding Frame.send_tcp_msg write_all
  server_send_room fits room =
      ground
        (arith, length-to_be_bytes (length bs), append_assoc s.written (to_be_bytes (length bs)) bs)
