-- ===== src/Prelude/Text.antt =====
-- Text as the list of its runes: Go's `strings` and `strconv` as the parsers of the repository use
-- them.
pub mod Numbers
pub mod Scan
use sysbox_runc.Prelude.Decimal.{is_digit}
use sysbox_runc.Prelude.Int.{ℤ, pos, negsuc}
use Prim.Native.Nat.{ℕ, zero, suc, ◌+◌, ◌-◌, ◌*◌, ◌^◌, ◌<◌, ◌≤◌}
use mathlib.Core.Path.{◌≡◌, ◌∙◌, refl, ap}
use mathlib.Core.Logic.{◌≢◌}
use mathlib.Core.Bool.{Bool, true, false, not, ◌&&◌, ◌||◌}
use mathlib.Core.Option.{Option, none, some}
use mathlib.Core.Option
use Prim.Native.Char.{code}
use Prim.Native.String.{String}
use mathlib.Core.List.{List, [], ◌∷◌, ◌++◌, reverse}
use native.Mathlib.Omega.{arith}
use sysbox_runc.Prelude.Tests.{ltb, leb, if◌then◌else◌}
use sysbox_runc.Prelude.Equality.{◌==◌, nat_eq, beq_self}
use sysbox_runc.Prelude.Lists.{All, contains, get_elem?}
use sysbox_runc.Prelude.Results.{Result, ok, err}

abbrev pub Text : Type 0
Text = List ℕ

abbrev pub cons_head : ℕ → List Text → List Text
cons_head c [] = (c ∷ []) ∷ []
cons_head c (part ∷ parts) = (c ∷ part) ∷ parts

-- `strings.Split` at one rune: there is always a part.
unfoldable pub split : ℕ → Text → List Text
split sep [] = [] ∷ []
split sep (c ∷ cs) = let rest = split sep cs in if c == sep then [] ∷ rest else cons_head c rest

-- `strings.Join`
unfoldable pub join : ℕ → List Text → Text
join sep [] = []
join sep (part ∷ []) = part
join sep (part ∷ next ∷ parts) = part ++ sep ∷ join sep (next ∷ parts)

split-append :
    (sep : ℕ) (part rest : Text)
    → contains part sep ≡ false
    → split sep (part ++ sep ∷ rest) ≡ part ∷ split sep rest
unfolding split
split-append sep [] rest h = ground (arith, beq_self sep)
split-append sep (c ∷ part) rest h = ground (arith, split-append sep part rest)

split_whole : (sep : ℕ) (part : Text) → contains part sep ≡ false → split sep part ≡ part ∷ []
unfolding split
split_whole sep [] h = refl
split_whole sep (c ∷ part) h = ground (arith, split_whole sep part)

-- Parts that do not hold the separator are read back.
pub split-join :
    (sep : ℕ) (part : Text) (parts : List Text)
    → All (λ p. contains p sep ≡ false) (part ∷ parts)
    → split sep (join sep (part ∷ parts)) ≡ part ∷ parts
unfolding join
split-join sep part [] h = split_whole sep part h.0
split-join sep part (next ∷ parts) h =
    split-append sep part (join sep (next ∷ parts)) h.0
    ∙ ap (◌∷◌ part) (split-join sep next parts h.1)

-- `unicode.IsSpace`
unfoldable pub is_unicode_space : ℕ → Bool
is_unicode_space c =
    (leb 9 c && leb c 13)
    || (c == 32)
    || (c == 0x85)
    || (c == 0xa0)
    || (c == 0x1680)
    || (leb 0x2000 c && leb c 0x200a)
    || (c == 0x2028)
    || (c == 0x2029)
    || (c == 0x202f)
    || (c == 0x205f)
    || (c == 0x3000)

unfoldable pub trim_left : Text → Text
trim_left [] = []
trim_left (c ∷ cs) = let rest = trim_left cs in if is_unicode_space c then rest else c ∷ cs

unfoldable pub trim_right : Text → Text
trim_right [] = []
trim_right (c ∷ cs) = elim (trim_right cs) [
  | [] ↦ if is_unicode_space c then [] else c ∷ []
  | d ∷ ds ↦ c ∷ d ∷ ds
]

-- `strings.TrimSpace`
unfoldable pub trim_space : Text → Text
trim_space s = trim_right (trim_left s)

-- The parts of `strings.Fields`, given the part that is being read.
abbrev flush : Text → List Text → List Text
flush [] parts = parts
flush (c ∷ cs) parts = (c ∷ cs) ∷ parts

fields_from : Text → Text → List Text
fields_from part [] = flush part []
fields_from part (c ∷ cs) =
    let started = fields_from [] cs in
    let longer = fields_from (part ++ c ∷ []) cs in
    if is_unicode_space c then flush part started else longer

-- `strings.Fields`
unfoldable pub fields : Text → List Text
unfolding fields_from
fields s = fields_from [] s

pub data NumError : Type 0 where
  syntax range : NumError

-- The loop of `strconv.ParseUint` in base 10: it stops at the first rune that is no digit, or at
-- which the number passes `limit`.
unfoldable pub parse_digits : ℕ → ℕ → Text → Result NumError ℕ
parse_digits limit n [] = ok n
parse_digits limit n (c ∷ cs) =
    let next = n * 10 + (c - 48) in
    let rest = parse_digits limit next cs in
    if not (is_digit c) then err syntax else if leb next limit then rest else err range

-- `strconv.ParseUint(s, 10, bits)`, where `limit` is the greatest number of so many bits.
unfoldable pub parse_uint : ℕ → Text → Result NumError ℕ
parse_uint limit [] = err syntax
parse_uint limit (c ∷ cs) = parse_digits limit 0 (c ∷ cs)

abbrev pub max_uint64 : ℕ
max_uint64 = 2 ^ 64 - 1

abbrev pub max_int64 : ℕ
max_int64 = 2 ^ 63 - 1

abbrev pub negate : ℕ → ℤ
negate zero = pos 0
negate (suc n) = negsuc n

-- The value and the error: a number that is too large is cut to the greatest or the least one.
unfoldable pub sign_int64 : Bool → ℕ → ℤ × Option NumError
sign_int64 negative n =
    if negative
    then (if leb n (2 ^ 63) then (negate n, none) else (negsuc max_int64, some range))
    else (if leb n max_int64 then (pos n, none) else (pos max_int64, some range))

unfoldable pub parse_magnitude : Bool → Text → ℤ × Option NumError
parse_magnitude negative s = elim (parse_uint max_uint64 s) [
  | ok n ↦ sign_int64 negative n
  | err syntax ↦ (pos 0, some syntax)
  | err range ↦ sign_int64 negative max_uint64
]

-- `strconv.ParseInt(s, 10, 64)`, and `strconv.Atoi` on 64-bit systems.
unfoldable pub parse_int : Text → ℤ × Option NumError
parse_int [] = (pos 0, some syntax)
parse_int (c ∷ cs) =
    if c == b'-'
    then parse_magnitude true cs
    else if c == b'+'
    then parse_magnitude false cs
    else parse_magnitude false (c ∷ cs)

-- The runes of a literal.
abbrev pub runes : String → Text
runes String.[] = []
runes (String.◌∷◌ c s) = code c ∷ runes s

-- The text after a prefix.
unfoldable pub strip_prefix : Text → Text → Option Text
strip_prefix [] s = some s
strip_prefix (p ∷ prefix) [] = none
strip_prefix (p ∷ prefix) (c ∷ s) =
    let rest = strip_prefix prefix s in if p == c then rest else none

-- `strings.HasPrefix`
unfoldable pub has_prefix : Text → Text → Bool
has_prefix s prefix = elim (strip_prefix prefix s) [ none ↦ false | some _ ↦ true ]

unfoldable pub strip_suffix : Text → Text → Option Text
strip_suffix suffix s = Option.map reverse (strip_prefix (reverse suffix) (reverse s))

-- The text before the first separator, and the text after it.
unfoldable pub cut : ℕ → Text → Option (Text × Text)
cut sep [] = none
cut sep (c ∷ cs) =
    let rest = Option.map (λ (p : Text × Text). (c ∷ p.0, p.1)) (cut sep cs) in
    if c == sep then some ([], cs) else rest

pub cut-append :
    (sep : ℕ) (part rest : Text)
    → contains part sep ≡ false
    → cut sep (part ++ sep ∷ rest) ≡ some (part, rest)
unfolding cut
cut-append sep [] rest h = ground (arith, beq_self sep)
cut-append sep (c ∷ part) rest h = ground (arith, cut-append sep part rest)
