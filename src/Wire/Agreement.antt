-- ===== src/Wire/Agreement.antt =====
-- The helpers of the two crates against each other, but for the errors' texts.
use nn_fuzz.Base.{◌≡◌, inl, inr, ⊎-cases, arith}
use nn_fuzz.Base.Text.{Bytes}
use nn_fuzz.Base.Outcome.{Outcome, ok, err, panic, map_err}
use nn_fuzz.Std.Net.{IoError, Socket, write_all}
use nn_fuzz.External.{Codec}
use nn_fuzz.Server.Frame
use nn_fuzz.Connector.Frame as Client

-- A result without its error's content.
abbrev pub blind {ℓ κ} :
    {E : Type ℓ} {A : Type κ} → Outcome E A × Socket → Outcome (Unit {0}) A × Socket
blind (r, s) = (map_err (λ _. tt) r, s)

pub blind-eq-ok {ℓ κ} :
    {E : Type ℓ} {A : Type κ} (x : Outcome E A × Socket) {a : A} {s : Socket}
    → blind x ≡ (ok a, s)
    → x ≡ (ok a, s)
blind-eq-ok (ok a, s) h = cc
blind-eq-ok (err e, s) h = cc
blind-eq-ok (panic, s) h = cc

module _ (io_text : IoError → Bytes) where
  -- On every message and every stream the three senders succeed, fail and panic together, and leave
  -- the stream in the same state.
  pub senders_agree :
      {T : Type 0} (c : Codec T) (msg : T) (s : Socket)
      → (blind (Frame.send_tcp_message c msg s) ≡ blind (Frame.send_tcp_msg c msg s))
        × (blind (Client.send_tcp_msg io_text c msg s) ≡ blind (Frame.send_tcp_msg c msg s))
  unfolding Frame.send_tcp_msg Frame.send_tcp_message Client.send_tcp_msg write_all
  senders_agree c msg s = elim (⊎-cases (c.to_allocvec msg)) [
    | inl (x, e) ↦ ground (arith, e)
    | inr (bs, e) ↦ ground (arith, e)
  ]

  -- On every stream the three receivers succeed, fail and panic together, with the same bytes, and
  -- leave the stream in the same state.
  pub receivers_agree :
      (s : Socket)
      → (blind (Frame.recv_tcp_message s) ≡ blind (Frame.recv_tcp_msg s))
        × (blind (Client.recv_tcp_msg io_text s) ≡ blind (Frame.recv_tcp_msg s))
  unfolding Frame.recv_tcp_msg Frame.recv_tcp_message Client.recv_tcp_msg
  receivers_agree s = ground arith
