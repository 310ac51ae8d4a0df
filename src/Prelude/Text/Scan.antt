-- ===== src/Prelude/Text/Scan.antt =====
-- What `fmt.Sscanf` reads of a text.
use sysbox_runc.Prelude.Decimal.{is_digit, format_nat, format_nat-is_digit, format_nat-ne-nil}
use sysbox_runc.Prelude.Equality.{◌==◌, nat_eq}
use sysbox_runc.Prelude.Lists.{All}
use sysbox_runc.Prelude.Tests.{if◌then◌else◌}
use sysbox_runc.Prelude.Results.{Result, ok, err}
use sysbox_runc.Prelude.Text.{Text, NumError, parse_uint, is_unicode_space}
use sysbox_runc.Prelude.Text.Numbers.{parse_uint-format_nat}
use Prim.Native.Nat.{ℕ, ◌≤◌}
use mathlib.Core.Path.{◌≡◌}
use mathlib.Core.Logic.{◌≢◌}
use mathlib.Core.Bool.{true}
use mathlib.Core.Option.{Option, none, some}
use mathlib.Core.List.{[], ◌∷◌, ◌++◌}
use native.Mathlib.Omega.{arith}

-- `SkipSpace`, which stops at a new line.
abbrev pub skip_space : Text → Option Text
skip_space [] = some []
skip_space (c ∷ cs) =
    let rest = skip_space cs in
    if c == 10 then none else if is_unicode_space c then rest else some (c ∷ cs)

abbrev pub leading_digits : Text → Text
leading_digits [] = []
leading_digits (c ∷ cs) = let rest = leading_digits cs in if is_digit c then c ∷ rest else []

abbrev number_of_result : Result NumError ℕ → Option ℕ
number_of_result (ok n) = some n
number_of_result (err e) = none

-- `%d` into an unsigned number of at most `limit`: the number, if there is one and no error.
unfoldable pub scan_uint : ℕ → Text → Option ℕ
scan_uint limit s = elim (skip_space s) [
  | none ↦ none
  | some rest ↦ number_of_result (parse_uint limit (leading_digits rest))
]

leading_digits-append :
    (ds rest : Text)
    → All (λ c. is_digit c ≡ true) ds
    → leading_digits rest ≡ []
    → leading_digits (ds ++ rest) ≡ ds
leading_digits-append [] rest h stop = stop
leading_digits-append (d ∷ ds) rest h stop =
    ground (arith, h.0, leading_digits-append ds rest h.1 stop)

skip_space-digits :
    (ds rest : Text)
    → All (λ c. is_digit c ≡ true) ds
    → ds ≢ []
    → skip_space (ds ++ rest) ≡ some (ds ++ rest)
unfolding is_digit is_unicode_space
skip_space-digits [] rest h ne = ground (arith, ne)
skip_space-digits (d ∷ ds) rest h ne = ground (arith, h.0)

-- A number is read, whatever follows it that is no digit.
pub scan_uint-format_nat :
    (limit n : ℕ) (rest : Text)
    → n ≤ limit
    → leading_digits rest ≡ []
    → scan_uint limit (format_nat n ++ rest) ≡ some n
unfolding scan_uint
scan_uint-format_nat limit n rest le stop = ground (
  arith,
  skip_space-digits (format_nat n) rest (format_nat-is_digit n) (format_nat-ne-nil n),
  leading_digits-append (format_nat n) rest (format_nat-is_digit n) stop,
  parse_uint-format_nat limit n le,
)
