-- ===== src/Seeds/RoundTrip.antt =====
-- Seeds that are written out with commas between them, and parsed.
use nn_fuzz.Base.{ℕ, ◌<◌, ◌≡◌, refl, List, [], ◌∷◌, ◌++◌, append_assoc, some, false, All, arith}
use nn_fuzz.Base.Text.{Bytes, codes, bytes_eq}
use nn_fuzz.Base.Outcome.{ok}
use nn_fuzz.Std.Decimal.{u64_mod, is_digit, to_string}
use nn_fuzz.Std.Decimal.RoundTrip.{IsDigits, to_string-IsDigits, parse_u64-to_string}
use nn_fuzz.Std.Split.{split, Lacks, split-Lacks, split-append}
use nn_fuzz.Seeds.{Unique, push_fields, push_parts, from_cmdline}

-- A list of seeds in the syntax of the command line.
abbrev pub csv : List ℕ → Bytes
csv [] = []
csv (x ∷ []) = to_string x
csv (x ∷ y ∷ r) = to_string x ++ b',' ∷ csv (y ∷ r)

IsDigits-Lacks : (sep : ℕ) (s : Bytes) → is_digit sep ≡ false → IsDigits s → Lacks sep s
IsDigits-Lacks sep [] h d = tt
IsDigits-Lacks sep (c ∷ s) h d = (ground arith, IsDigits-Lacks sep s h d.1)

push_fields-to_string : (n : ℕ) → n < u64_mod → push_fields (split b'-' (to_string n)) ≡ ok (n ∷ [])
push_fields-to_string n fits =
    rw
      (split-Lacks b'-' (to_string n)
        (IsDigits-Lacks b'-' (to_string n) refl (to_string-IsDigits n)))
      (rw (parse_u64-to_string n fits))

push_parts-csv :
    (x : ℕ) (xs seeds : List ℕ)
    → All (λ n. n < u64_mod) (x ∷ xs)
    → push_parts (split b',' (csv (x ∷ xs))) seeds ≡ ok (seeds ++ x ∷ xs)
unfolding push_parts
push_parts-csv x [] seeds fits =
    rw
      (split-Lacks b',' (to_string x)
        (IsDigits-Lacks b',' (to_string x) refl (to_string-IsDigits x)))
      (rw (push_fields-to_string x fits.0))
push_parts-csv x (y ∷ r) seeds fits =
    rw
      (split-append b',' (to_string x) (csv (y ∷ r))
        (IsDigits-Lacks b',' (to_string x) refl (to_string-IsDigits x)))
      (ground (
        arith,
        push_fields-to_string x fits.0,
        push_parts-csv y r (seeds ++ x ∷ []) fits.1,
        append_assoc seeds (x ∷ []) (y ∷ r),
      ))

not_auto : (s rest : Bytes) → IsDigits s → bytes_eq (s ++ b',' ∷ rest) (codes "auto") ≡ false
not_auto [] rest h = refl
not_auto (c ∷ s) rest h = ground arith

not_auto_alone : (s : Bytes) → IsDigits s → bytes_eq s (codes "auto") ≡ false
not_auto_alone [] h = refl
not_auto_alone (c ∷ s) h = ground arith

csv_not_auto : (x : ℕ) (xs : List ℕ) → bytes_eq (csv (x ∷ xs)) (codes "auto") ≡ false
csv_not_auto x [] = not_auto_alone (to_string x) (to_string-IsDigits x)
csv_not_auto x (y ∷ r) = not_auto (to_string x) (csv (y ∷ r)) (to_string-IsDigits x)

-- A list of at least one 64-bit seed, written in decimal with commas, is read back as that list with
-- each seed once.
pub from_cmdline-csv :
    (u : Unique) (x : ℕ) (xs : List ℕ)
    → All (λ n. n < u64_mod) (x ∷ xs)
    → from_cmdline u (csv (x ∷ xs))
      ≡ ok (record { cmdline = csv (x ∷ xs); vals = some (u.unique (x ∷ xs)) })
unfolding from_cmdline
from_cmdline-csv u x xs fits = ground (arith, csv_not_auto x xs, push_parts-csv x xs [] fits)
