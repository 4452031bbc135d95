-- ===== src/Payload.antt =====
-- The abstract contract of a message's payload, which `fire`, `generate_event`, `recv_event` and the
-- broker's hook share: it is a serialized event, compressed exactly when a flag says so.
use nn_fuzz.Base.{ℕ, ◌==◌, ◌≡◌, inr, some, true, false}
use nn_fuzz.Base.Bits.{bit_and}
use nn_fuzz.Base.Text.{Bytes}
use nn_fuzz.External.{Codec, Gzip, Libafl}
use nn_fuzz.Messages.{Event}

module _ {L : Libafl} (events : Codec (Event L)) (g : Gzip) (flag : ℕ) where
  pub data Holds (e : Event L) (flags : ℕ) (payload : Bytes) : Type 0 where
    plain :
        events.to_allocvec e ≡ inr payload
        → (bit_and flags flag == flag) ≡ false
        → Holds e flags payload
    compressed :
        (t : ℕ) (serialized : Bytes)
        → events.to_allocvec e ≡ inr serialized
        → g.compress t serialized ≡ inr (some payload)
        → (bit_and flags flag == flag) ≡ true
        → Holds e flags payload

  -- Flags that agree on the bit serve alike.
  pub Holds-flags :
      (e : Event L) (a b : ℕ) (payload : Bytes)
      → bit_and a flag ≡ bit_and b flag
      → Holds e a payload
      → Holds e b payload
  Holds-flags e a b payload same (plain ser bit) = plain ser (rw (← same) bit)
  Holds-flags e a b payload same (compressed t s ser comp bit) =
      compressed t s ser comp (rw (← same) bit)
