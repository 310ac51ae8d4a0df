-- ===== src/System/ProcStat.antt =====
-- `parseStat` of libcontainer/system/proc.go. The text is that of its bytes; the state is a byte, as
-- the kernel's states are. A slice or an index out of range panics.
pub mod RoundTrip
use sysbox_runc.Prelude.{
  ℕ, suc, Bool, true, false, not, ◌&&◌, ◌||◌, Option, none, some, List, [], ◌∷◌, ◌++◌, Result, ok,
  err, ◌>>=◌, if◌then◌else◌, ◌==◌, nat_eq, leb, length, drop, get_elem?,
}
use sysbox_runc.Prelude.Text.{Text, split, cut, max_uint64}
use sysbox_runc.Prelude.Text.Scan.{scan_uint}

-- `Stat_t`
pub record Stat : Type 0 where
  pub pid : ℕ
  pub name : Text
  pub state : ℕ
  pub start_time : ℕ

pub data StatError : Type 0 where
  invalid_data bad_pid panics : StatError

abbrev pub last_cut : ℕ → Bool → Text → Option (Text × Text) → Option (Text × Text)
last_cut c here cs (some (before, after)) = some (c ∷ before, after)
last_cut c here cs none = if here then some ([], cs) else none

-- The text before the last separator, as `strings.LastIndex` finds it, and the text after it.
unfoldable pub cut_last : ℕ → Text → Option (Text × Text)
cut_last sep [] = none
cut_last sep (c ∷ cs) = last_cut c (c == sep) cs (cut_last sep cs)

-- `fmt.Sscanf(s, "%c", &state)`, whose error is passed over.
abbrev pub first_byte : Text → ℕ
first_byte [] = 0
first_byte (c ∷ _) = c

abbrev pub value_or_zero : Option ℕ → ℕ
value_or_zero none = 0
value_or_zero (some n) = n

abbrev pub or_stat_error : {A : Type 0} → StatError → Option A → Result StatError A
or_stat_error e none = err e
or_stat_error e (some a) = ok a

abbrev pub is_nil : Text → Bool
is_nil [] = true
is_nil (_ ∷ _) = false

-- The parts after the name: the state is the first, the start time the 20th.
unfoldable pub parse_fields : ℕ → Text → List Text → Result StatError Stat
parse_fields pid name parts = do
  state ← or_stat_error panics (get_elem? parts 0)
  start ← or_stat_error panics (get_elem? parts 19)
  ok (record {
    pid = pid;
    name = name;
    state = first_byte state;
    start_time = value_or_zero (scan_uint max_uint64 start);
  })

-- Around the last `)`: what comes before it, and what after.
unfoldable pub parse_around : Text → Text → Result StatError Stat
parse_around before after =
    if leb (length before) 2 || is_nil after
    then err invalid_data
    else (or_stat_error invalid_data (cut b'(' before) >>= (λ (parts : Text × Text).
        or_stat_error bad_pid (scan_uint max_uint64 parts.0)
        >>= (λ pid. parse_fields pid parts.1 (split b' ' (drop 1 after)))))

unfoldable pub parse_stat : Text → Result StatError Stat
parse_stat text =
    or_stat_error invalid_data (cut_last b')' text)
    >>= (λ (around : Text × Text). parse_around around.0 around.1)
