-- ===== src/Prelude/Decimal.antt =====
-- Decimal numbers as strconv has them: `FormatInt` of a number that is not negative, and the
-- accumulation of `ParseUint` over ASCII digits.
use Prim.Native.Nat.{ℕ, zero, suc, ◌+◌, ◌-◌, ◌*◌, ◌/◌, ◌%◌, ◌<◌}
use mathlib.Core.Path.{◌≡◌}
use mathlib.Core.Logic.{◌≢◌}
use mathlib.Core.Bool.{Bool, true, ◌&&◌}
use mathlib.Core.List.{List, [], ◌∷◌}
use native.Mathlib.Omega.{arith}
use sysbox_runc.Prelude.Tests.{ltb, leb, if◌then◌else◌}
use sysbox_runc.Prelude.Lists.{All}

unfoldable pub is_digit : ℕ → Bool
is_digit c = leb b'0' c && leb c b'9'

-- The digits from the last to the first, before those of `acc`. The fuel is more than the number.
format_from : ℕ → ℕ → List ℕ → List ℕ
format_from zero n acc = acc
format_from (suc fuel) n acc =
    let rest = format_from fuel (n / 10) ((48 + n % 10) ∷ acc) in
    if ltb n 10 then (48 + n) ∷ acc else rest

unfoldable pub format_nat : ℕ → List ℕ
unfolding format_from
format_nat n = format_from (suc n) n []

unfoldable pub value_from : ℕ → List ℕ → ℕ
value_from v [] = v
value_from v (d ∷ ds) = value_from (v * 10 + (d - 48)) ds

unfoldable pub value_of : List ℕ → ℕ
unfolding value_from
value_of ds = value_from 0 ds

value_from-format_from :
    (fuel n : ℕ) (acc : List ℕ)
    → n < fuel
    → value_from 0 (format_from fuel n acc) ≡ value_from n acc
unfolding value_from format_from
value_from-format_from zero n acc h = elim h [ ]
value_from-format_from (suc fuel) n acc h =
    ground (arith, value_from-format_from fuel (n / 10) ((48 + n % 10) ∷ acc))

pub value_of-format_nat : (n : ℕ) → value_of (format_nat n) ≡ n
unfolding value_of format_nat
value_of-format_nat n = value_from-format_from (suc n) n [] (omega arith)

format_from-is_digit :
    (fuel n : ℕ) (acc : List ℕ)
    → n < fuel
    → All (λ c. is_digit c ≡ true) acc
    → All (λ c. is_digit c ≡ true) (format_from fuel n acc)
unfolding format_from is_digit
format_from-is_digit zero n acc h all = all
format_from-is_digit (suc fuel) n acc h all =
    ground (arith, format_from-is_digit fuel (n / 10) ((48 + n % 10) ∷ acc))

pub format_nat-is_digit : (n : ℕ) → All (λ c. is_digit c ≡ true) (format_nat n)
unfolding format_nat
format_nat-is_digit n = format_from-is_digit (suc n) n [] (omega arith) tt

format_from-ne-nil : (fuel n : ℕ) (acc : List ℕ) → n < fuel → format_from fuel n acc ≢ []
unfolding format_from
format_from-ne-nil zero n acc h = elim h [ ]
format_from-ne-nil (suc fuel) n acc h =
    ground (arith, format_from-ne-nil fuel (n / 10) ((48 + n % 10) ∷ acc))

pub format_nat-ne-nil : (n : ℕ) → format_nat n ≢ []
unfolding format_nat
format_nat-ne-nil n = format_from-ne-nil (suc n) n [] (omega arith)
