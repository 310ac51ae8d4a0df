-- ===== src/Prelude/Text/Numbers.antt =====
-- Decimal numbers read back.
use Prim.Native.Nat.{ℕ, ◌+◌, ◌-◌, ◌*◌, ◌≤◌}
use mathlib.Core.Path.{◌≡◌, ◌∙◌, refl, ap}
use mathlib.Core.Logic.{◌≢◌}
use mathlib.Core.Bool.{true, false}
use mathlib.Core.Option.{none}
use mathlib.Core.List.{[], ◌∷◌}
use native.Mathlib.Omega.{arith}
use sysbox_runc.Prelude.Equality.{nat_eq}
use sysbox_runc.Prelude.Lists.{All}
use sysbox_runc.Prelude.Results.{ok}
use sysbox_runc.Prelude.Int.{pos}
use sysbox_runc.Prelude.Decimal.{
  is_digit, format_nat, value_of, value_from, format_nat-is_digit, format_nat-ne-nil,
  value_of-format_nat,
}
use sysbox_runc.Prelude.Text.{
  Text, parse_digits, parse_uint, parse_magnitude, sign_int64, parse_int, max_int64, max_uint64,
}

value_from_mono : (n : ℕ) (cs : Text) → n ≤ value_from n cs
unfolding value_from
value_from_mono n [] = omega arith
value_from_mono n (c ∷ cs) = omega (arith, value_from_mono (n * 10 + (c - 48)) cs)

parse_digits-value_from :
    (limit n : ℕ) (cs : Text)
    → All (λ c. is_digit c ≡ true) cs
    → value_from n cs ≤ limit
    → parse_digits limit n cs ≡ ok (value_from n cs)
unfolding parse_digits value_from
parse_digits-value_from limit n [] h le = refl
parse_digits-value_from limit n (c ∷ cs) h le = ground (
  arith,
  parse_digits-value_from limit (n * 10 + (c - 48)) cs,
  value_from_mono (n * 10 + (c - 48)) cs,
)

parse_uint-digits :
    (limit : ℕ) (cs : Text)
    → All (λ c. is_digit c ≡ true) cs
    → cs ≢ []
    → value_of cs ≤ limit
    → parse_uint limit cs ≡ ok (value_of cs)
unfolding parse_uint value_of
parse_uint-digits limit [] h ne le = absurd (ne refl)
parse_uint-digits limit (c ∷ cs) h ne le = parse_digits-value_from limit 0 (c ∷ cs) h le

pub parse_uint-format_nat : (limit n : ℕ) → n ≤ limit → parse_uint limit (format_nat n) ≡ ok n
parse_uint-format_nat limit n le =
    parse_uint-digits limit (format_nat n) (format_nat-is_digit n) (format_nat-ne-nil n)
      (omega (arith, value_of-format_nat n))
    ∙ ap ok (value_of-format_nat n)

parse_int-digits :
    (cs : Text)
    → All (λ c. is_digit c ≡ true) cs
    → cs ≢ []
    → parse_int cs ≡ parse_magnitude false cs
unfolding parse_int is_digit
parse_int-digits [] h ne = absurd (ne refl)
parse_int-digits (c ∷ cs) h ne = ground arith

-- A number that is printed is read back.
pub parse_int-format_nat : (n : ℕ) → n ≤ max_int64 → parse_int (format_nat n) ≡ (pos n, none)
unfolding parse_magnitude sign_int64
parse_int-format_nat n le =
    let fits : n ≤ max_uint64 = omega arith in
    parse_int-digits (format_nat n) (format_nat-is_digit n) (format_nat-ne-nil n)
    ∙ ground (arith, parse_uint-format_nat max_uint64 n fits)
