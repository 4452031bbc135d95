-- ===== src/Std/Decimal/RoundTrip.antt =====
-- The decimal print of a 64-bit number and `parse`, one behind the other.
use nn_fuzz.Base.{All, true, ℕ, zero, suc, ◌+◌, ◌-◌, ◌*◌, ◌/◌, ◌%◌, ◌<◌, ◌≡◌, ◌≢◌, [], ◌∷◌, arith}
use nn_fuzz.Base.Text.{Bytes}
use nn_fuzz.Base.Outcome.{ok}
use nn_fuzz.Std.Decimal.{is_digit, u64_mod, accumulate, parse_u64, show_loop, to_string}

-- Reading the last digit behind the digits before it.
accumulate-digit :
    (n : ℕ) (out : Bytes)
    → n < u64_mod
    → accumulate ((b'0' + n % 10) ∷ out) (n / 10) ≡ accumulate out n
unfolding accumulate
accumulate-digit n out h = ground arith

accumulate-first :
    (n : ℕ) (out : Bytes) → n < 10 → accumulate ((b'0' + n % 10) ∷ out) 0 ≡ accumulate out n
unfolding accumulate
accumulate-first n out h = ground arith

accumulate-show_loop :
    (fuel n : ℕ) (out : Bytes)
    → n < fuel
    → n < u64_mod
    → accumulate (show_loop fuel n out) 0 ≡ accumulate out n
unfolding show_loop
accumulate-show_loop zero n out h fits = absurd (omega arith)
accumulate-show_loop (suc fuel) n out h fits = ground (
  arith,
  accumulate-first n out,
  accumulate-digit n out,
  accumulate-show_loop fuel (n / 10) ((b'0' + n % 10) ∷ out),
)

-- A print begins with a digit, so it has no sign.
parse_u64-cons : (c : ℕ) (s : Bytes) → c ≢ b'+' → parse_u64 (c ∷ s) ≡ accumulate (c ∷ s) 0
unfolding parse_u64
parse_u64-cons c s h = ground arith

parse_u64-show_loop :
    (fuel n : ℕ) (out : Bytes)
    → n < fuel
    → parse_u64 (show_loop fuel n out) ≡ accumulate (show_loop fuel n out) 0
unfolding show_loop
parse_u64-show_loop zero n out h = absurd (omega arith)
parse_u64-show_loop (suc fuel) n out h = ground (
  arith,
  parse_u64-cons (b'0' + n % 10) out,
  parse_u64-show_loop fuel (n / 10) ((b'0' + n % 10) ∷ out),
)

-- `parse` reads back what `format!` printed.
pub parse_u64-to_string : (n : ℕ) → n < u64_mod → parse_u64 (to_string n) ≡ ok n
unfolding to_string accumulate
parse_u64-to_string n h =
    rw (parse_u64-show_loop (suc n) n [] (omega arith))
      (accumulate-show_loop (suc n) n [] (omega arith) h)

accumulate-lt : (s : Bytes) (n r : ℕ) → n < u64_mod → accumulate s n ≡ ok r → r < u64_mod
unfolding accumulate
accumulate-lt [] n r h e = ground arith
accumulate-lt (c ∷ s) n r h e = ground (arith, accumulate-lt s (n * 10 + (c - b'0')) r)

-- A parsed number fits 64 bits.
pub parse_u64-lt : (s : Bytes) (r : ℕ) → parse_u64 s ≡ ok r → r < u64_mod
unfolding parse_u64
parse_u64-lt [] r e = cc
parse_u64-lt (c ∷ []) r e = ground (arith, accumulate-lt (c ∷ []) 0 r)
parse_u64-lt (c ∷ d ∷ s) r e =
    ground (arith, accumulate-lt (c ∷ d ∷ s) 0 r, accumulate-lt (d ∷ s) 0 r)

-- A print is made of digits.
abbrev pub IsDigits : Bytes → Type 0
IsDigits = All (λ c. is_digit c ≡ true)

show_loop-IsDigits : (fuel n : ℕ) (out : Bytes) → IsDigits out → IsDigits (show_loop fuel n out)
unfolding show_loop
show_loop-IsDigits zero n out h = h
show_loop-IsDigits (suc fuel) n out h =
    ground (arith, show_loop-IsDigits fuel (n / 10) ((b'0' + n % 10) ∷ out))

pub to_string-IsDigits : (n : ℕ) → IsDigits (to_string n)
unfolding to_string
to_string-IsDigits n = show_loop-IsDigits (suc n) n [] tt
