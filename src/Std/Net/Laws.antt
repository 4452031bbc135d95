-- ===== src/Std/Net/Laws.antt =====
-- What `read_exact` and the big-endian sizes do.
use nn_fuzz.Base.{
  ℕ, zero, suc, ◌<◌, ◌≡◌, refl, ap, ◌⊎◌, inl, inr, List, [], ◌∷◌, ◌++◌, length, arith,
}
use nn_fuzz.Base.Text.{Bytes}
use nn_fuzz.Base.Outcome.{ok, err}
use nn_fuzz.Std.Net.{
  IoError, unexpected_eof, Arrival, byte, fault, arrivals, Socket, read_bytes, read_exact, u32_mod,
  to_be_bytes, from_be_bytes,
}

pub from_be_bytes-to_be_bytes : (n : ℕ) → n < u32_mod → from_be_bytes (to_be_bytes n) ≡ n
unfolding from_be_bytes to_be_bytes
from_be_bytes-to_be_bytes n h = omega arith

pub length-to_be_bytes : (n : ℕ) → length (to_be_bytes n) ≡ 4
unfolding to_be_bytes
length-to_be_bytes n = refl

read_bytes-arrivals :
    (bs : Bytes) (rest : List Arrival)
    → read_bytes (length bs) (arrivals bs ++ rest) ≡ (ok bs, rest)
unfolding read_bytes
read_bytes-arrivals [] rest = refl
read_bytes-arrivals (b ∷ bs) rest = rw (read_bytes-arrivals bs rest)

-- Bytes that have arrived are read, and what follows them is left.
pub read_exact-arrivals :
    (bs : Bytes) (n : ℕ) (rest : List Arrival) (s : Socket)
    → n ≡ length bs
    → s.incoming ≡ arrivals bs ++ rest
    → read_exact n s ≡ (ok bs, record s { incoming = rest })
unfolding read_exact
read_exact-arrivals bs n rest s hn hs = rw (hn, hs) (rw (read_bytes-arrivals bs rest))

read_bytes_short :
    (bs : Bytes) (n : ℕ) → length bs < n → read_bytes n (arrivals bs) ≡ (err unexpected_eof, [])
unfolding read_bytes
read_bytes_short bs zero h = absurd (omega arith)
read_bytes_short [] (suc n) h = refl
read_bytes_short (b ∷ bs) (suc n) h = rw (read_bytes_short bs n (omega arith))

read_bytes_fault :
    (bs : Bytes) (e : IoError) (rest : List Arrival) (n : ℕ)
    → length bs < n
    → read_bytes n (arrivals bs ++ fault e ∷ rest) ≡ (err e, rest)
unfolding read_bytes
read_bytes_fault bs e rest zero h = absurd (omega arith)
read_bytes_fault [] e rest (suc n) h = refl
read_bytes_fault (b ∷ bs) e rest (suc n) h = rw (read_bytes_fault bs e rest n (omega arith))

-- A stream that ends too early, and a fault before the buffer is full: what was read is gone.
pub read_exact_short :
    (bs : Bytes) (n : ℕ) (s : Socket)
    → length bs < n
    → s.incoming ≡ arrivals bs
    → read_exact n s ≡ (err unexpected_eof, record s { incoming = [] })
unfolding read_exact
read_exact_short bs n s h hs = rw hs (rw (read_bytes_short bs n h))

pub read_exact_fault :
    (bs : Bytes) (e : IoError) (rest : List Arrival) (n : ℕ) (s : Socket)
    → length bs < n
    → s.incoming ≡ arrivals bs ++ fault e ∷ rest
    → read_exact n s ≡ (err e, record s { incoming = rest })
unfolding read_exact
read_exact_fault bs e rest n s h hs = rw hs (rw (read_bytes_fault bs e rest n h))

read_bytes_sound :
    (n : ℕ) (s : List Arrival) (bs : Bytes) (rest : List Arrival)
    → read_bytes n s ≡ (ok bs, rest)
    → (s ≡ arrivals bs ++ rest) × (length bs ≡ n)
unfolding read_bytes
read_bytes_sound zero s bs rest e = ground arith
read_bytes_sound (suc n) [] bs rest e = ground arith
read_bytes_sound (suc n) (fault x ∷ s) bs rest e = ground arith
read_bytes_sound (suc n) (byte b ∷ s) [] rest e = ground arith
read_bytes_sound (suc n) (byte b ∷ s) (c ∷ bs) rest e = ground (arith, read_bytes_sound n s bs rest)

-- What `read_exact` returns is what had arrived first, and it takes nothing more.
pub read_exact_sound :
    (n : ℕ) (s : Socket) (bs : Bytes) (s' : Socket)
    → read_exact n s ≡ (ok bs, s')
    → (s.incoming ≡ arrivals bs ++ s'.incoming)
      × (length bs ≡ n)
      × (s'.written ≡ s.written)
      × (s'.capacity ≡ s.capacity)
unfolding read_exact
read_exact_sound n s bs s' e = ground (arith, read_bytes_sound n s.incoming bs s'.incoming)

-- What a read that fails has taken: less than it wanted, up to a fault or the end of the stream.
abbrev pub IsCutOff : ℕ → List Arrival → List Arrival → Type 0
IsCutOff n s rest =
    (head : Bytes) × (length head < n)
    × (((e : IoError) × (s ≡ arrivals head ++ fault e ∷ rest))
        ⊎ ((s ≡ arrivals head) × (rest ≡ [])))

read_bytes_fails :
    (n : ℕ) (s rest : List Arrival) (e : IoError)
    → read_bytes n s ≡ (err e, rest)
    → IsCutOff n s rest
unfolding read_bytes
read_bytes_fails zero s rest e h = absurd (ground (arith, h))
read_bytes_fails (suc n) [] rest e h = ([], omega arith, inr (refl, ground (arith, h)))
read_bytes_fails (suc n) (fault x ∷ s) rest e h = ([], omega arith, inl (x, ground (arith, h)))
read_bytes_fails (suc n) (byte b ∷ s) rest e h =
    let (head, short, cut) = read_bytes_fails n s rest e (ground (arith, h)) in
    (
      b ∷ head,
      omega arith,
      elim cut [
        | inl (x, same) ↦ inl (x, ap (λ q. byte b ∷ q) same)
        | inr (same, end) ↦ inr (ap (λ q. byte b ∷ q) same, end)
      ],
    )

pub read_exact_fails :
    (n : ℕ) (s s' : Socket) (e : IoError)
    → read_exact n s ≡ (err e, s')
    → IsCutOff n s.incoming s'.incoming × (s'.written ≡ s.written)
unfolding read_exact
read_exact_fails n s s' e h =
    (read_bytes_fails n s.incoming s'.incoming e (ground (arith, h)), ground (arith, h))
