-- ===== src/User/Scenarios.antt =====
-- Concrete users and groups.
use sysbox_runc.Prelude.{◌≡◌, refl, arith, true, false, none, some, [], ◌∷◌, ok, map}
use sysbox_runc.Prelude.Int.{pos}
use sysbox_runc.Prelude.Decimal.{is_digit, format_nat}
use sysbox_runc.Prelude.Text.{
  runes, split, join, trim_space, trim_left, trim_right, is_unicode_space, parse_int,
  parse_magnitude, parse_uint, parse_digits, sign_int64,
}
use sysbox_runc.User.Parse.{
  Reader, parse_passwd_filter, parse_group_filter, parse_filter, parse_lines, user_of_parts,
}
use sysbox_runc.User.Parse.RoundTrip.{
  Entry, user_of, print_entry, IsEntry, parse_passwd-print_entry,
}
use sysbox_runc.User.Exec.{
  ExecUser, get_exec_user, default_user, is_user, resolve_user, resolve_group, entries_of,
  supplementary, is_group,
}
use sysbox_runc.User.Exec.Origin.{UidOrigin, passwd_entries, get_exec_user-UidOrigin}

abbrev root : Entry
root = record {
  name = runes "root";
  pass = runes "x";
  uid = 0;
  gid = 0;
  gecos = [];
  home = runes "/root";
  shell = runes "/bin/sh";
}

root-IsEntry : IsEntry root
root-IsEntry = record {
  no_colon = (refl, (refl, (refl, (refl, (refl, tt)))));
  uid_fits = omega arith;
  gid_fits = omega arith;
  trimmed =
      unfold print_entry join format_nat trim_space trim_left trim_right is_unicode_space in refl;
}

parse_passwd-print_entry_example :
    parse_passwd_filter (some (map print_entry (root ∷ []), false)) (λ u. true)
    ≡ ok (map user_of (root ∷ []))
parse_passwd-print_entry_example = parse_passwd-print_entry (root ∷ []) (root-IsEntry, tt)

abbrev no_lines : Reader
no_lines = some ([], false)

abbrev users : Reader
users = some (runes "bin:x:1:1::/:" ∷ runes "root:x:0:0::/root:/bin/sh" ∷ [], false)

abbrev root_found : ExecUser
root_found = record { uid = pos 0; gid = pos 0; sgids = []; home = runes "/root" }

get_exec_user-UidOrigin_example :
    UidOrigin (runes "root") (default_user none) (passwd_entries users) (pos 0)
unfolding split
get_exec_user-UidOrigin_example =
    get_exec_user-UidOrigin (runes "root") none users no_lines {out = root_found} (
      unfold get_exec_user is_user resolve_user resolve_group entries_of parse_passwd_filter
        parse_group_filter parse_filter parse_lines user_of_parts parse_int parse_magnitude
        parse_uint parse_digits sign_int64 is_digit trim_space trim_left trim_right is_unicode_space
        supplementary is_group in
      refl)
