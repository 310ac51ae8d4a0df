-- ===== src/System/Scenarios.antt =====
-- A concrete line of `/proc/pid/stat`.
use sysbox_runc.Prelude.{◌≡◌, refl, arith, List, [], ◌∷◌, ok}
use sysbox_runc.Prelude.Text.{Text, runes, join}
use sysbox_runc.Prelude.Decimal.{format_nat}
use sysbox_runc.System.ProcStat.{parse_stat}
use sysbox_runc.System.ProcStat.RoundTrip.{print_stat, IsLine, parse_stat-print_stat}

abbrev zero_field : Text
zero_field = b'0' ∷ []

abbrev fields : List Text
fields =
    zero_field
    ∷ zero_field
    ∷ zero_field
    ∷ zero_field
    ∷ zero_field
    ∷ zero_field
    ∷ zero_field
    ∷ zero_field
    ∷ zero_field
    ∷ zero_field
    ∷ zero_field
    ∷ zero_field
    ∷ zero_field
    ∷ zero_field
    ∷ zero_field
    ∷ zero_field
    ∷ zero_field
    ∷ zero_field
    ∷ runes "297"
    ∷ []

line : IsLine 89 297 b'S' fields
unfolding join format_nat
line = record {
  pid_fits = omega arith;
  start_fits = omega arith;
  no_spaces = (
    refl,
    (
      refl,
      (
        refl,
        (
          refl,
          (
            refl,
            (
              refl,
              (
                refl,
                (
                  refl,
                  (
                    refl,
                    (
                      refl,
                      (
                        refl,
                        (refl, (refl, (refl, (refl, (refl, (refl, (refl, (refl, (refl, tt))))))))),
                      ),
                    ),
                  ),
                ),
              ),
            ),
          ),
        ),
      ),
    ),
  );
  no_parenthesis = refl;
  start_field = refl;
}

-- The process is named `a) (b`.
parse_stat-print_stat_example :
    parse_stat (print_stat 89 (runes "a) (b") ((b'S' ∷ []) ∷ fields))
    ≡ ok (record { pid = 89; name = runes "a) (b"; state = b'S'; start_time = 297 })
parse_stat-print_stat_example = parse_stat-print_stat 89 297 b'S' (runes "a) (b") fields line
