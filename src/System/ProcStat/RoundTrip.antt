-- ===== src/System/ProcStat/RoundTrip.antt =====
-- A line of the kernel is read, whatever the name of the process holds.
use sysbox_runc.Prelude.{
  ℕ, ◌≡◌, ◌≢◌, ◌∙◌, ◌≤◌, refl, ap, sym, arith, true, false, none, some, List, [], ◌∷◌, ◌++◌, ok,
  ◌>>=◌, nat_eq, beq_self, leb, length, length-append, get_elem?, contains, contains-append, All,
}
use mathlib.Core.List.{append-nil, append_assoc}
use sysbox_runc.Prelude.Text.{Text, join, split-join, cut, cut-append, max_uint64}
use sysbox_runc.Prelude.Text.Scan.{scan_uint, scan_uint-format_nat}
use sysbox_runc.Prelude.Decimal.{format_nat, format_nat-is_digit, format_nat-ne-nil, is_digit}
use sysbox_runc.System.ProcStat.{
  invalid_data, cut_last, parse_fields, parse_around, parse_stat, or_stat_error,
}

-- The fields after the name, from the state on.
unfoldable pub print_stat : ℕ → Text → List Text → Text
print_stat pid name fields =
    (format_nat pid ++ b' ' ∷ b'(' ∷ name) ++ b')' ∷ b' ' ∷ join b' ' fields

cut_last-none : (sep : ℕ) (s : Text) → contains s sep ≡ false → cut_last sep s ≡ none
unfolding cut_last
cut_last-none sep [] h = refl
cut_last-none sep (c ∷ s) h = ground (arith, cut_last-none sep s)

cut_last-append :
    (sep : ℕ) (before after : Text)
    → contains after sep ≡ false
    → cut_last sep (before ++ sep ∷ after) ≡ some (before, after)
unfolding cut_last
cut_last-append sep [] after h = ground (arith, cut_last-none sep after h, beq_self sep)
cut_last-append sep (c ∷ before) after h = rw (cut_last-append sep before after h) refl

digits_plain :
    (sep : ℕ) (ds : Text)
    → is_digit sep ≡ false
    → All (λ c. is_digit c ≡ true) ds
    → contains ds sep ≡ false
unfolding is_digit
digits_plain sep [] other h = refl
digits_plain sep (d ∷ ds) other h = ground (arith, digits_plain sep ds other h.1, h.0)

-- The kernel's line: numbers that fit, a state of one byte, and fields without spaces or parentheses.
pub record IsLine (pid : ℕ) (start : ℕ) (state : ℕ) (fields : List Text) : Type 0 where
  pub pid_fits : pid ≤ max_uint64
  pub start_fits : start ≤ max_uint64
  pub no_spaces : All (λ f. contains f b' ' ≡ false) ((state ∷ []) ∷ fields)
  pub no_parenthesis : contains (join b' ' ((state ∷ []) ∷ fields)) b')' ≡ false
  pub start_field : get_elem? fields 18 ≡ some (format_nat start)

long_enough : (ds rest : Text) → ds ≢ [] → leb (length (ds ++ b' ' ∷ b'(' ∷ rest)) 2 ≡ false
long_enough [] rest ne = absurd (ne refl)
long_enough (d ∷ ds) rest ne = ground (arith, length-append ds (b' ' ∷ b'(' ∷ rest))

cut_name :
    (pid : ℕ) (name : Text)
    → cut b'(' (format_nat pid ++ b' ' ∷ b'(' ∷ name) ≡ some (format_nat pid ++ b' ' ∷ [], name)
cut_name pid name =
    ap (cut b'(') (sym (append_assoc (format_nat pid) (b' ' ∷ []) (b'(' ∷ name)))
    ∙ cut-append b'(' (format_nat pid ++ b' ' ∷ []) name (
        contains-append (format_nat pid) (b' ' ∷ []) b'('
        ∙ ground (
          arith,
          digits_plain b'(' (format_nat pid) (unfold is_digit in refl) (format_nat-is_digit pid),
        ))

scan_start : (start : ℕ) → start ≤ max_uint64 → scan_uint max_uint64 (format_nat start) ≡ some start
scan_start start le =
    ap (scan_uint max_uint64) (sym (append-nil (format_nat start)))
    ∙ scan_uint-format_nat max_uint64 start [] le refl

parse_fields_lem :
    (pid start state : ℕ) (name : Text) (fields : List Text)
    → IsLine pid start state fields
    → parse_fields pid name ((state ∷ []) ∷ fields)
      ≡ ok (record { pid = pid; name = name; state = state; start_time = start })
unfolding parse_fields
parse_fields_lem pid start state name fields line =
    rw (line.start_field, scan_start start line.start_fits) refl

parse_around_lem :
    (pid start state : ℕ) (name : Text) (fields : List Text)
    → IsLine pid start state fields
    → parse_around (format_nat pid ++ b' ' ∷ b'(' ∷ name) (b' ' ∷ join b' ' ((state ∷ []) ∷ fields))
      ≡ ok (record { pid = pid; name = name; state = state; start_time = start })
unfolding parse_around is_digit
parse_around_lem pid start state name fields line =
    rw
      (
        long_enough (format_nat pid) name (format_nat-ne-nil pid),
        cut_name pid name,
        scan_uint-format_nat max_uint64 pid (b' ' ∷ []) line.pid_fits refl,
        split-join b' ' (state ∷ []) fields line.no_spaces,
      )
      (parse_fields_lem pid start state name fields line)

-- The line that is printed from an ID, a name, a state and fields is read back: the ID, the state, the
-- start time in the 20th field from the state on, and the name, which may hold spaces and parentheses.
pub parse_stat-print_stat :
    (pid start state : ℕ) (name : Text) (fields : List Text)
    → IsLine pid start state fields
    → parse_stat (print_stat pid name ((state ∷ []) ∷ fields))
      ≡ ok (record { pid = pid; name = name; state = state; start_time = start })
unfolding parse_stat print_stat
parse_stat-print_stat pid start state name fields line =
    let before = format_nat pid ++ b' ' ∷ b'(' ∷ name in
    let after = b' ' ∷ join b' ' ((state ∷ []) ∷ fields) in
    ap (λ cut_at. or_stat_error invalid_data cut_at >>= (λ (p : Text × Text). parse_around p.0 p.1))
      (cut_last-append b')' before after (ground (arith, line.no_parenthesis)))
    ∙ parse_around_lem pid start state name fields line
