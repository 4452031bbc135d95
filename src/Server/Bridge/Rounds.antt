-- ===== src/Server/Bridge/Rounds.antt =====
-- Whole runs of `handle_connection`: what passes from LLMP to the network and back.
pub mod Refinement
pub mod Delivery
use nn_fuzz.Base.{
  ℕ, zero, suc, ◌+◌, ◌<◌, ◌==◌, ◌≡◌, refl, sym, ap, ◌∙◌, ◌⊎◌, inl, inr, List, [], ◌∷◌, ◌++◌,
  append_assoc, append-nil, Option, none, some, true, false, not, filter, length, map, arith,
  Bool-cases, ⊎-cases, All,
}
use nn_fuzz.Base.Bits.{bit_or}
use nn_fuzz.Base.Text.{Bytes}
use nn_fuzz.Base.Outcome.{ok, err, panic}
use nn_fuzz.Base.Action.{ends, >>=-eq-ok}
use nn_fuzz.Std.Net.{Socket, IoError, Arrival, byte, fault, arrivals, u32_mod}
use nn_fuzz.External.{Codec, IsCodec}
use nn_fuzz.Messages.{TcpRemoteNewMessage, llmp_flag_from_nn}
use nn_fuzz.Server.Frame.{recv_tcp_msg, send_tcp_msg}
use nn_fuzz.Server.Bridge.{
  Received, Bridge, LlmpSend, forward, forward_all, send_buf, relay, receive_one, round, rounds,
}
use nn_fuzz.Server.Bridge.Forward.{available, foreign, Frames, forward_foreign_inv, forward-Frames}
use nn_fuzz.Wire.{frame, IsByte}
use nn_fuzz.Wire.Faults.{recv_sound, recv_fails}
use nn_fuzz.Std.Net.Laws.{IsCutOff}

-- The messages among LLMP's answers.
abbrev pub messages_of : List Received → List TcpRemoteNewMessage
messages_of [] = []
messages_of (inl _ ∷ more) = messages_of more
messages_of (inr none ∷ more) = messages_of more
messages_of (inr (some m) ∷ more) = m ∷ messages_of more

-- A message of the network as LLMP gets it.
abbrev pub marked : TcpRemoteNewMessage → LlmpSend
marked m = record { tag = m.tag; flags = bit_or m.flags llmp_flag_from_nn; payload = m.payload }

module _ (messages : Codec TcpRemoteNewMessage) where
  -- What a run hears: whole frames of messages, and between them parts of a length that a fault or
  -- the end of the stream cut off.
  pub data Heard : List Arrival → List TcpRemoteNewMessage → List Arrival → Type 0 where
    nothing : (rest : List Arrival) → Heard rest [] rest
    message :
        (bs : Bytes) (m : TcpRemoteNewMessage) (ms : List TcpRemoteNewMessage)
        (rest end : List Arrival)
        → messages.from_bytes bs ≡ inr m
        → Heard rest ms end
        → Heard (arrivals (frame bs) ++ rest) (m ∷ ms) end
    cut_off :
        (head : Bytes) (e : IoError) (ms : List TcpRemoteNewMessage) (rest end : List Arrival)
        → length head < 4
        → Heard rest ms end
        → Heard (arrivals head ++ fault e ∷ rest) ms end
    closed :
        (head : Bytes) (ms : List TcpRemoteNewMessage) (end : List Arrival)
        → length head < 4
        → Heard [] ms end
        → Heard (arrivals head) ms end

  -- The abstract relay: a part of LLMP's answers is taken, and the foreign messages of it are what is
  -- written, as frames in their order; and what is heard is what LLMP is handed, marked, in its order.
  pub record Relayed (id : ℕ) (b b' : Bridge) : Type 0 where
    pub taken : List Received
    pub written : Bytes
    pub heard : List TcpRemoteNewMessage
    pub takes : b.inbox ≡ taken ++ b'.inbox
    pub writes : b'.stream.written ≡ b.stream.written ++ written
    pub frames : Frames messages (foreign id (messages_of taken)) written
    pub hears : Heard b.stream.incoming heard b'.stream.incoming
    pub hands : b'.outbox ≡ b.outbox ++ map marked heard

  forward_takes :
      (id : ℕ) (q q' : List Received) (s s' : Socket)
      → forward messages id q s ≡ (ok tt, q', s')
      → (taken : List Received) × (q ≡ taken ++ q') × (available q ≡ messages_of taken)
  unfolding forward
  forward_takes id [] q' s s' h = ([], ground arith, refl)
  forward_takes id (inl e ∷ more) q' s s' h = cc
  forward_takes id (inr none ∷ more) q' s s' h = (inr none ∷ [], ground arith, refl)
  forward_takes id (inr (some m) ∷ more) q' s s' h = elim (Bool-cases (m.client_id == id)) [
    | inl own ↦
        let (taken, e, same) = forward_takes id more q' s s' (ground (arith, own, h)) in
        (inr (some m) ∷ taken, rw e, rw same)
    | inr other ↦
        let (t, sent, run) = forward_foreign_inv messages id m more q' s s' other h in
        let (taken, e, same) = forward_takes id more q' t s' run in
        (inr (some m) ∷ taken, rw e, rw same)
  ]

  pub forward_all_inv :
      (id : ℕ) (b b' : Bridge)
      → forward_all messages id b ≡ (ok tt, b')
      → (forward messages id b.inbox b.stream ≡ (ok tt, b'.inbox, b'.stream))
        × (b'.outbox ≡ b.outbox)
  forward_all_inv id b b' h = ground (arith, h)

  pub forward_all-Relayed :
      (id : ℕ) (b b' : Bridge) → forward_all messages id b ≡ (ok tt, b') → Relayed id b b'
  forward_all-Relayed id b b' h =
      let (run, same_outbox) = forward_all_inv id b b' h in
      let (taken, takes, same) = forward_takes id b.inbox b'.inbox b.stream b'.stream run in
      let (out, writes, frames, incoming) =
        forward-Frames messages id b.inbox b'.inbox b.stream b'.stream run in
      record {
        taken = taken;
        written = out;
        heard = [];
        takes = takes;
        writes = writes;
        frames = rw (← same) frames;
        hears = rw incoming (nothing b.stream.incoming);
        hands = same_outbox ∙ sym (append-nil b.outbox);
      }

  -- A receive that is ignored.
  cut_off-Heard : (s rest : List Arrival) → IsCutOff 4 s rest → Heard s [] rest
  cut_off-Heard s rest (head, short, inl (e, same)) =
      rw same (cut_off head e [] rest rest short (nothing rest))
  cut_off-Heard s rest (head, short, inr (same, end)) =
      rw (same, end) (closed head [] [] short (nothing []))

  pub relay_inv :
      (id : ℕ) (val : Bytes) (b b' : Bridge)
      → relay messages id val b ≡ (ok tt, b')
      → (m : TcpRemoteNewMessage) × (messages.from_bytes val ≡ inr m)
        × (b'.outbox ≡ b.outbox ++ marked m ∷ [])
        × (b'.stream ≡ b.stream)
        × (b'.inbox ≡ b.inbox)
  relay_inv id val b b' h = elim (⊎-cases (messages.from_bytes val)) [
    | inl (_, e) ↦ absurd (ground (arith, e, h))
    | inr (m, e) ↦ (m, e, ground (arith, e, h), ground (arith, e, h), ground (arith, e, h))
  ]

  pub receive_one-Relayed :
      (id : ℕ) (b b' : Bridge)
      → All IsByte b.stream.incoming
      → receive_one messages id b ≡ (ok tt, b')
      → Relayed id b b'
  unfolding receive_one
  receive_one-Relayed id b b' all h = elim (ends (recv_tcp_msg b.stream)) [
    | inl (val, t, e) ↦
        let (m, decoded, hands, same, inbox) =
          relay_inv id val (record b { stream = t }) b' (ground (arith, e, h)) in
        let (arrived, wrote, _) = recv_sound b.stream t val all e in
        record {
          taken = [];
          written = [];
          heard = m ∷ [];
          takes = sym inbox;
          writes = ap (λ (s : Socket). s.written) same ∙ wrote ∙ sym (append-nil b.stream.written);
          frames = refl;
          hears =
              rw (arrived, same)
                (message val m [] t.incoming t.incoming decoded (nothing t.incoming));
          hands = hands;
        }
    | inr (inl (x, t, e)) ↦
        let (cut, wrote) = recv_fails b.stream t x e in
        let b'_eq : b' ≡ record b { stream = t } = ground (arith, e, h) in
        record {
          taken = [];
          written = [];
          heard = [];
          takes = rw b'_eq refl;
          writes = rw b'_eq (wrote ∙ sym (append-nil b.stream.written));
          frames = refl;
          hears = rw b'_eq (cut_off-Heard b.stream.incoming t.incoming cut);
          hands = rw b'_eq (sym (append-nil b.outbox));
        }
    | inr (inr (t, e)) ↦ absurd (ground (arith, e, h))
  ]
