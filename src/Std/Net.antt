-- ===== src/Std/Net.antt =====
-- A TCP stream as the code sees it, `read_exact`, `write_all` and big-endian `u32`.
pub mod Laws
use nn_fuzz.Base.{
  ℕ, zero, suc, ◌+◌, ◌-◌, ◌*◌, ◌/◌, ◌%◌, ◌^◌, List, [], ◌∷◌, ◌++◌, map, leb, length, if◌then◌else◌,
}
use nn_fuzz.Base.Text.{Bytes}
use nn_fuzz.Base.Outcome.{Outcome, ok, err, panic}
use nn_fuzz.Base.Action.{Action}

-- `would_block` is what an expired read timeout gives.
pub data IoError : Type 0 where
  unexpected_eof would_block broken_pipe other : IoError

-- What the reading side meets, in order: a byte, or a failing `read`, such as an expired timeout.
-- The end of the list is the end of the stream.
pub data Arrival : Type 0 where
  byte : ℕ → Arrival
  fault : IoError → Arrival

-- `capacity` counts the bytes that the peer still takes before writes fail.
pub record Socket : Type 0 where
  pub incoming : List Arrival
  pub written : Bytes
  pub capacity : ℕ

abbrev pub arrivals : Bytes → List Arrival
arrivals [] = []
arrivals (b ∷ bs) = byte b ∷ arrivals bs

-- The bytes that were read before a fault are lost.
read_bytes : ℕ → List Arrival → Outcome IoError Bytes × List Arrival
read_bytes zero s = (ok [], s)
read_bytes (suc n) [] = (err unexpected_eof, [])
read_bytes (suc n) (fault e ∷ s) = (err e, s)
read_bytes (suc n) (byte b ∷ s) =
    let (r, s') = read_bytes n s in
    (elim r [ ok bs ↦ ok (b ∷ bs) | err e ↦ err e | panic ↦ panic ], s')

-- `stream.read_exact(&mut buf)` with a buffer of `n` bytes.
unfoldable pub read_exact : ℕ → Action Socket IoError Bytes
unfolding read_bytes
read_exact n s = let (r, rest) = read_bytes n s.incoming in (r, record s { incoming = rest })

abbrev pub take : ℕ → Bytes → Bytes
take zero xs = []
take (suc n) [] = []
take (suc n) (x ∷ xs) = x ∷ take n xs

-- `stream.write_all(buf)`: a failing write has sent the part for which there was room.
unfoldable pub write_all : Bytes → Action Socket IoError (Unit {0})
write_all bs s =
    if leb (length bs) s.capacity
    then (ok tt, record s { written = s.written ++ bs; capacity = s.capacity - length bs })
    else (err broken_pipe, record s { written = s.written ++ take s.capacity bs; capacity = 0 })

abbrev pub u32_mod : ℕ
u32_mod = 2 ^ 32

-- `u32::to_be_bytes`
unfoldable pub to_be_bytes : ℕ → Bytes
to_be_bytes n = (n / 2 ^ 24 % 256) ∷ (n / 2 ^ 16 % 256) ∷ (n / 2 ^ 8 % 256) ∷ (n % 256) ∷ []

-- `u32::from_be_bytes`
unfoldable pub from_be_bytes : Bytes → ℕ
from_be_bytes [] = 0
from_be_bytes (b ∷ bs) = b * 256 ^ length bs + from_be_bytes bs
