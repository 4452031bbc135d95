-- ===== src/Std/Decimal.antt =====
-- `str::parse::<u64>()` (and `usize`, which has 64 bits) and the decimal print of `format!("{}")`.
pub mod RoundTrip
use nn_fuzz.Base.{
  ℕ, zero, suc, ◌+◌, ◌-◌, ◌*◌, ◌/◌, ◌%◌, ◌^◌, Bool, ◌&&◌, [], ◌∷◌, ltb, leb, ◌==◌, if◌then◌else◌,
}
use nn_fuzz.Base.Text.{Bytes}
use nn_fuzz.Base.Outcome.{Outcome, ok, err}

-- `ParseIntError`'s kinds for an unsigned type.
pub data ParseIntError : Type 0 where
  empty invalid_digit pos_overflow : ParseIntError

abbrev pub u64_mod : ℕ
u64_mod = 2 ^ 64

abbrev pub is_digit : ℕ → Bool
is_digit c = leb b'0' c && leb c b'9'

-- The digits behind the number `n`; the result never wraps.
pub accumulate : Bytes → ℕ → Outcome ParseIntError ℕ
accumulate [] n = ok n
accumulate (c ∷ s) n =
    let m = n * 10 + (c - b'0') in
    if is_digit c
    then (if ltb m u64_mod then accumulate s m else err pos_overflow)
    else err invalid_digit

-- A sign needs a digit behind it.
after_plus : Bytes → Outcome ParseIntError ℕ
unfolding accumulate
after_plus [] = err invalid_digit
after_plus (c ∷ s) = accumulate (c ∷ s) 0

-- One leading `+` is accepted; `-` is no digit of an unsigned number.
unfoldable pub parse_u64 : Bytes → Outcome ParseIntError ℕ
unfolding accumulate after_plus
parse_u64 [] = err empty
parse_u64 (c ∷ s) = if c == b'+' then after_plus s else accumulate (c ∷ s) 0

-- The digits of `n` before `out`; a number has fewer digits than its successor counts.
show_loop : ℕ → ℕ → Bytes → Bytes
show_loop zero n out = out
show_loop (suc fuel) n out =
    let longer = (b'0' + n % 10) ∷ out in
    let rest = show_loop fuel (n / 10) longer in if ltb n 10 then longer else rest

unfoldable pub to_string : ℕ → Bytes
unfolding show_loop
to_string n = show_loop (suc n) n []
