-- ===== src/Devices/Lines.antt =====
-- The text of device rules: `CgroupString` of libcontainer/devices/device.go, and `parseLine` and
-- `EmulatorFromList` of libcontainer/cgroups/devices/devices_emulator.go.
-- A line is the list of its runes. `devicesListRegexp` is matched by a scan: each of its parts ends
-- where the next one begins, so there is one way to match.
pub mod RoundTrip
use sysbox_runc.Prelude.{
  ℕ, ◌≡◌, Bool, true, false, not, ◌&&◌, ◌||◌, Option, none, some, List, [], ◌∷◌, ◌++◌,
  if◌then◌else◌, ◌==◌, nat_eq, list_eq, ltb, contains, Result, ok, err, ◌>>=◌, ◌^◌, ◌+◌,
}
use sysbox_runc.Prelude.Int.{ℤ, pos, negsuc, int_eq}
use sysbox_runc.Prelude.Decimal.{is_digit, format_nat, value_of}
use sysbox_runc.Devices.Device.{
  Permissions, Rule, wildcard, wildcard_device, block_device, char_device, is_valid, is_empty,
}
use sysbox_runc.Devices.Emulator.{DeviceRule, Emulator, EmulatorError, allow}

-- `strconv.FormatInt(n, 10)`
unfoldable pub format_int : ℤ → List ℕ
format_int (pos n) = format_nat n
format_int (negsuc n) = b'-' ∷ format_nat (n + 1)

format_device : ℤ → List ℕ
format_device n = if n == wildcard then b'*' ∷ [] else format_int n

unfoldable pub cgroup_string : Rule → List ℕ
unfolding format_device
cgroup_string rule =
    rule.node
    ∷ b' '
    ∷ (format_device rule.major ++ (b':' ∷ (format_device rule.minor ++ (b' ' ∷ rule.permissions))))

-- `\s`
unfoldable pub is_space : ℕ → Bool
is_space c = (c == 9) || (c == 10) || (c == 12) || (c == 13) || (c == 32)

unfoldable pub is_perm : ℕ → Bool
is_perm c = (c == b'r') || (c == b'w') || (c == b'm')

-- The longest prefix of runes that pass the test, and the rest.
unfoldable pub span : (ℕ → Bool) → List ℕ → List ℕ × List ℕ
span p [] = ([], [])
span p (c ∷ cs) = let (front, rest) = span p cs in if p c then (c ∷ front, rest) else ([], c ∷ cs)

-- `\s+`
unfoldable pub skip_spaces : List ℕ → Option (List ℕ)
skip_spaces [] = none
skip_spaces (c ∷ cs) = if is_space c then some (span is_space cs).1 else none

-- `(\d+|\*)`: the text of the group, and the rest.
unfoldable pub match_number : List ℕ → Option (List ℕ × List ℕ)
match_number [] = none
match_number (c ∷ cs) =
    if is_digit c
    then some (c ∷ (span is_digit cs).0, (span is_digit cs).1)
    else if c == b'*'
    then some (c ∷ [], cs)
    else none

unfoldable pub match_colon : List ℕ → Option (List ℕ)
match_colon [] = none
match_colon (c ∷ cs) = if c == b':' then some cs else none

-- `([rwm]+)$`
unfoldable pub match_perms : List ℕ → Option (List ℕ)
match_perms [] = none
match_perms (c ∷ cs) = elim (span is_perm (c ∷ cs)).1 [ [] ↦ some (c ∷ cs) | _ ∷ _ ↦ none ]

pub record Groups : Type 0 where
  pub node : ℕ
  pub major : List ℕ
  pub minor : List ℕ
  pub perms : List ℕ

abbrev and_then {ℓ κ} : {A : Type ℓ} {B : Type κ} → Option A → (A → Option B) → Option B
and_then none f = none
and_then (some a) f = f a

-- What follows the type of the device.
unfoldable pub match_rest : ℕ → List ℕ → Option Groups
match_rest node line = and_then (skip_spaces line) λ numbers.
    and_then (match_number numbers) λ major. and_then (match_colon major.1) λ tail.
      and_then (match_number tail) λ minor. and_then (skip_spaces minor.1) λ last.
        and_then (match_perms last)
          λ perms. some (record { node = node; major = major.0; minor = minor.0; perms = perms })

-- The groups of `devicesListRegexp` in a line.
unfoldable pub match_line : List ℕ → Option Groups
match_line [] = none
match_line (node ∷ line) =
    if contains (b'a' ∷ b'b' ∷ b'c' ∷ []) node then match_rest node line else none

pub data LineError : Type 0 where
  bad_format unknown_type bad_major bad_minor unknown_modes : LineError

-- `strconv.ParseUint(s, 10, 32)` of a text of digits.
parse_uint32 : LineError → List ℕ → Result LineError ℤ
parse_uint32 e digits = if ltb (value_of digits) (2 ^ 32) then ok (pos (value_of digits)) else err e

parse_number : LineError → List ℕ → Result LineError ℤ
unfolding parse_uint32
parse_number e number = if number == b'*' ∷ [] then ok wildcard else parse_uint32 e number

parse_device : Groups → Result LineError (Option DeviceRule)
unfolding parse_number
parse_device g = do
  major ← parse_number bad_major g.major
  minor ← parse_number bad_minor g.minor
  if not (is_valid g.perms) || is_empty g.perms
      then err unknown_modes
      else ok (
          some (record {
            meta = record { node = g.node; major = major; minor = minor };
            perms = g.perms;
          }))

unfoldable pub parse_groups : Groups → Result LineError (Option DeviceRule)
unfolding parse_device
parse_groups g =
    if g.node == wildcard_device
    then ok none
    else if (g.node == block_device) || (g.node == char_device)
    then parse_device g
    else err unknown_type

unfoldable pub parse_line : List ℕ → Result LineError (Option DeviceRule)
parse_line line = elim (match_line line) [ none ↦ err bad_format | some g ↦ parse_groups g ]

pub data ListError : Type 0 where
  parsing : LineError → ListError
  adding : EmulatorError → ListError
  reading : ListError

-- The loop over the lines that the scanner yields.
from_lines : Emulator → List (List ℕ) → Result ListError Emulator
from_lines e [] = ok e
from_lines e (line ∷ lines) = elim (parse_line line) [
  | err wrong ↦ err (parsing wrong)
  | ok rule ↦ elim (allow rule e).1 [
    | some refused ↦ err (adding refused)
    | none ↦ from_lines (allow rule e).0 lines
  ]
]

-- A reader is the lines that it yields and whether it ends in an error.
unfoldable pub emulator_from_list : List (List ℕ) → Bool → Result ListError Emulator
unfolding from_lines
emulator_from_list lines fails = do
  e ← from_lines (record { default_allow = false; rules = [] }) lines
  if fails then err reading else ok e
