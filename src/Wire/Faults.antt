-- ===== src/Wire/Faults.antt =====
-- What a fault or an early end of the stream does to a receive, by where it strikes.
use nn_fuzz.Base.{
  ℕ, ◌^◌, ◌≤◌, ◌<◌, ◌≡◌, refl, sym, ◌∙◌, ap, inl, inr, List, [], ◌∷◌, ◌++◌, length, arith, All,
}
use nn_fuzz.Base.Text.{Bytes}
use nn_fuzz.Base.Outcome.{ok, err, panic}
use nn_fuzz.Std.Net.{
  unexpected_eof, IoError, would_block, Arrival, byte, fault, arrivals, Socket, read_exact,
  from_be_bytes, to_be_bytes, u32_mod,
}
use nn_fuzz.Std.Net.Laws.{
  read_exact-arrivals, read_exact_fault, read_exact_short, read_exact_sound, IsCutOff,
  read_exact_fails,
}
use nn_fuzz.External.{LibaflError, file}
use nn_fuzz.Base.Action.{ends, >>=-eq-ok, convert, convert-eq-ok, expecting, expecting-eq-ok}
use mathlib.Core.Path.{subst}
use nn_fuzz.Server.Frame
use nn_fuzz.Wire.{frame, IsByte}
use nn_fuzz.Wire.Delivery.{arrivals-frame}

-- A fault before the four bytes of the length are complete is returned as an error, and the bytes
-- of the length that had arrived are lost: the stream goes on behind them.
pub recv_fault_in_header :
    (head : Bytes) (e : IoError) (rest : List Arrival) (s : Socket)
    → length head < 4
    → s.incoming ≡ arrivals head ++ fault e ∷ rest
    → Frame.recv_tcp_msg s ≡ (err (file e), record s { incoming = rest })
unfolding Frame.recv_tcp_msg
recv_fault_in_header head e rest s h hs = ground (arith, read_exact_fault head e rest 4 s h hs)

-- So does the end of the stream behind whole messages.
pub recv_nothing :
    (s : Socket)
    → s.incoming ≡ []
    → Frame.recv_tcp_msg s ≡ (err (file unexpected_eof), record s { incoming = [] })
unfolding Frame.recv_tcp_msg read_exact
recv_nothing s h = rw h refl

-- A fault after the length and before the last byte of the body panics.
pub recv_fault_in_body :
    (head body : Bytes) (e : IoError) (rest : List Arrival) (s : Socket)
    → 4 ≡ length head
    → length body < from_be_bytes head
    → s.incoming ≡ arrivals head ++ (arrivals body ++ fault e ∷ rest)
    → Frame.recv_tcp_msg s ≡ (panic, record s { incoming = rest })
unfolding Frame.recv_tcp_msg
recv_fault_in_body head body e rest s h short hs = ground (
  arith,
  read_exact-arrivals head 4 (arrivals body ++ fault e ∷ rest) s h hs,
  read_exact_fault body e rest (from_be_bytes head)
      (record s { incoming = arrivals body ++ fault e ∷ rest }) short refl,
)

-- So does the end of the stream there.
pub recv_end_in_body :
    (head body : Bytes) (s : Socket)
    → 4 ≡ length head
    → length body < from_be_bytes head
    → s.incoming ≡ arrivals head ++ arrivals body
    → Frame.recv_tcp_msg s ≡ (panic, record s { incoming = [] })
unfolding Frame.recv_tcp_msg
recv_end_in_body head body s h short hs = ground (
  arith,
  read_exact-arrivals head 4 (arrivals body) s h hs,
  read_exact_short body (from_be_bytes head) (record s { incoming = arrivals body }) short refl,
)

-- A length of which the first byte is lost, with the first byte of the body moved up, is too large.
shifted_size :
    (n h1 h2 h3 h4 b : ℕ)
    → to_be_bytes n ≡ h1 ∷ h2 ∷ h3 ∷ h4 ∷ []
    → 0 < n
    → n < 2 ^ 16
    → n ≤ from_be_bytes (h2 ∷ h3 ∷ h4 ∷ b ∷ [])
unfolding to_be_bytes from_be_bytes
shifted_size n h1 h2 h3 h4 b e pos fits = ground arith

-- A read timeout that expires between the first byte of a message's length and the second makes
-- the receive after it panic: for every message of 1 to 65535 bytes that arrives whole around that
-- timeout and is followed by another one, the first call returns an error and the second panics.
pub timeout_in_header_panics :
    (h1 h2 h3 h4 b : ℕ) (body : Bytes) (rest : List Arrival) (s : Socket)
    → to_be_bytes (length (b ∷ body)) ≡ h1 ∷ h2 ∷ h3 ∷ h4 ∷ []
    → length (b ∷ body) < 2 ^ 16
    → s.incoming
      ≡ byte h1
        ∷ fault would_block
        ∷ (arrivals (h2 ∷ h3 ∷ h4 ∷ b ∷ body) ++ fault would_block ∷ rest)
    → let t = record s {
      incoming = arrivals (h2 ∷ h3 ∷ h4 ∷ b ∷ body) ++ fault would_block ∷ rest;
    } in
      (Frame.recv_tcp_msg s ≡ (err (file would_block), t))
      × (Frame.recv_tcp_msg t ≡ (panic, record s { incoming = rest }))
timeout_in_header_panics h1 h2 h3 h4 b body rest s size fits hs = (
  recv_fault_in_header (h1 ∷ []) would_block
      (arrivals (h2 ∷ h3 ∷ h4 ∷ b ∷ body) ++ fault would_block ∷ rest) s (omega arith) hs,
  recv_fault_in_body (h2 ∷ h3 ∷ h4 ∷ b ∷ []) body would_block rest
      (record s { incoming = arrivals (h2 ∷ h3 ∷ h4 ∷ b ∷ body) ++ fault would_block ∷ rest }) refl
      (omega (arith, shifted_size (length (b ∷ body)) h1 h2 h3 h4 b size (omega arith) fits)) refl,
)

-- Four bytes are the length that they spell.
to_be_bytes-from_be_bytes :
    (head : Bytes)
    → length head ≡ 4
    → All (λ b. b < 256) head
    → (to_be_bytes (from_be_bytes head) ≡ head) × (from_be_bytes head < u32_mod)
unfolding to_be_bytes from_be_bytes
to_be_bytes-from_be_bytes (a ∷ b ∷ c ∷ d ∷ []) h small = ground arith
to_be_bytes-from_be_bytes [] h small = absurd (omega arith)
to_be_bytes-from_be_bytes (a ∷ []) h small = absurd (omega arith)
to_be_bytes-from_be_bytes (a ∷ b ∷ []) h small = absurd (omega arith)
to_be_bytes-from_be_bytes (a ∷ b ∷ c ∷ []) h small = absurd (omega arith)
to_be_bytes-from_be_bytes (a ∷ b ∷ c ∷ d ∷ e ∷ xs) h small = absurd (omega arith)

IsByte-arrivals :
    (bs : Bytes) (rest : List Arrival) → All IsByte (arrivals bs ++ rest) → All (λ b. b < 256) bs
IsByte-arrivals [] rest h = tt
IsByte-arrivals (b ∷ bs) rest h = (h.0, IsByte-arrivals bs rest h.1)

-- A receive that succeeds has made both reads.
recv_inv :
    (s s' : Socket) (bs : Bytes)
    → Frame.recv_tcp_msg s ≡ (ok bs, s')
    → (head : Bytes) × (t : Socket) × (read_exact 4 s ≡ (ok head, t))
      × (read_exact (from_be_bytes head) t ≡ (ok bs, s'))
unfolding Frame.recv_tcp_msg
recv_inv s s' bs h =
    let body = λ (head : Bytes). expecting {F = LibaflError} (read_exact (from_be_bytes head)) in
    let (head, t, first, second) = >>=-eq-ok (convert file (read_exact 4)) body s h in
    (
      head,
      t,
      convert-eq-ok file (read_exact 4) s first,
      expecting-eq-ok {F = LibaflError} (read_exact (from_be_bytes head)) t second,
    )

-- On a stream of bytes below 256 and faults, whatever a receive returns had arrived as one whole
-- frame of less than 2 to the 32 bytes at the head of the stream; nothing behind that frame is
-- touched, and nothing is written.
pub recv_sound :
    (s s' : Socket) (bs : Bytes)
    → All IsByte s.incoming
    → Frame.recv_tcp_msg s ≡ (ok bs, s')
    → (s.incoming ≡ arrivals (frame bs) ++ s'.incoming)
      × (s'.written ≡ s.written)
      × (length bs < u32_mod)
recv_sound s s' bs all h =
    let (head, t, first, second) = recv_inv s s' bs h in
    let (in1, len1, w1, _) = read_exact_sound 4 s head t first in
    let (in2, len2, w2, _) = read_exact_sound (from_be_bytes head) t bs s' second in
    let small = IsByte-arrivals head t.incoming (subst (All IsByte) in1 all) in
    let (size, bound) = to_be_bytes-from_be_bytes head len1 small in
    (
      in1
          ∙ ap (λ x. arrivals head ++ x) in2
          ∙ sym (
              arrivals-frame bs s'.incoming
              ∙ ap (λ b. arrivals b ++ (arrivals bs ++ s'.incoming)) (ap to_be_bytes len2 ∙ size)),
      w2 ∙ w1,
      omega arith,
    )

-- A receive that returns an error has lost a part of a length, and nothing else.
pub recv_fails :
    (s s' : Socket) (x : LibaflError)
    → Frame.recv_tcp_msg s ≡ (err x, s')
    → IsCutOff 4 s.incoming s'.incoming × (s'.written ≡ s.written)
unfolding Frame.recv_tcp_msg
recv_fails s s' x h = elim (ends (read_exact 4 s)) [
  | inl (head, t, e) ↦ elim (ends (read_exact (from_be_bytes head) t)) [
    | inl (bs, u, e') ↦ absurd (ground (arith, e, e', h))
    | inr (inl (y, u, e')) ↦ absurd (ground (arith, e, e', h))
    | inr (inr (u, e')) ↦ absurd (ground (arith, e, e', h))
  ]
  | inr (inl (y, t, e)) ↦ read_exact_fails 4 s s' y (ground (arith, e, h))
  | inr (inr (t, e)) ↦ absurd (ground (arith, e, h))
]
