-- ===== src/User/Parse.antt =====
-- The entries of passwd, group, subid and id_map files: `parseLine`, `parseParts` and the parsers of
-- libcontainer/user/user.go.
-- A reader is nil, or the lines that it yields and whether it ends in an error.
pub mod RoundTrip
use sysbox_runc.Prelude.{
  ℕ, ◌≡◌, Bool, true, false, Option, none, some, List, [], ◌∷◌, Result, ok, err, ◌>>=◌,
  if◌then◌else◌, get_elem?, keep, ◌==◌, list_eq, nat_eq, map,
}
use sysbox_runc.Prelude.Int.{ℤ, pos}
use sysbox_runc.Prelude.Text.{Text, split, fields, trim_space, parse_int}

-- `Name`, `Pass`, `Uid`, `Gid`, `Gecos`, `Home`, `Shell`
pub record User : Type 0 where
  pub name : Text
  pub pass : Text
  pub uid : ℤ
  pub gid : ℤ
  pub gecos : Text
  pub home : Text
  pub shell : Text

-- `List` is the list of the group's members.
pub record Group : Type 0 where
  pub name : Text
  pub pass : Text
  pub gid : ℤ
  pub members : List Text

pub record SubId : Type 0 where
  pub name : Text
  pub sub_id : ℤ
  pub count : ℤ

pub record IdMap : Type 0 where
  pub id : ℤ
  pub parent_id : ℤ
  pub count : ℤ

-- A `*string`, `*int` or `*int64`, and `*[]string` argument of `parseParts`: one for which there is
-- no part keeps its zero value, and the error of a number is ignored.
abbrev pub string_part : Option Text → Text
string_part none = []
string_part (some p) = p

abbrev pub int_part : Option Text → ℤ
int_part none = pos 0
int_part (some p) = (parse_int p).0

abbrev pub list_part : Option Text → List Text
list_part none = []
list_part (some []) = []
list_part (some (c ∷ cs)) = split b',' (c ∷ cs)

unfoldable pub user_of_parts : List Text → User
user_of_parts parts = record {
  name = string_part (get_elem? parts 0);
  pass = string_part (get_elem? parts 1);
  uid = int_part (get_elem? parts 2);
  gid = int_part (get_elem? parts 3);
  gecos = string_part (get_elem? parts 4);
  home = string_part (get_elem? parts 5);
  shell = string_part (get_elem? parts 6);
}

unfoldable pub group_of_parts : List Text → Group
group_of_parts parts = record {
  name = string_part (get_elem? parts 0);
  pass = string_part (get_elem? parts 1);
  gid = int_part (get_elem? parts 2);
  members = list_part (get_elem? parts 3);
}

unfoldable pub sub_id_of_parts : List Text → SubId
sub_id_of_parts parts = record {
  name = string_part (get_elem? parts 0);
  sub_id = int_part (get_elem? parts 1);
  count = int_part (get_elem? parts 2);
}

unfoldable pub id_map_of_parts : List Text → IdMap
id_map_of_parts parts = record {
  id = int_part (get_elem? parts 0);
  parent_id = int_part (get_elem? parts 1);
  count = int_part (get_elem? parts 2);
}

pub data ReadError : Type 0 where
  nil_source failed_read : ReadError

abbrev pub Reader : Type 0
Reader = Option (List Text × Bool)

-- The loop over the lines: an empty one is skipped.
unfoldable pub parse_lines {ℓ} : {A : Type ℓ} → (Text → Text) → (Text → A) → List Text → List A
parse_lines trim entry [] = []
parse_lines trim entry (line ∷ lines) =
    if trim line == []
    then parse_lines trim entry lines
    else entry (trim line) ∷ parse_lines trim entry lines

unfoldable pub parse_filter :
    {A : Type 0} → (Text → Text) → (Text → A) → Reader → (A → Bool) → Result ReadError (List A)
parse_filter trim entry none filter = err nil_source
parse_filter trim entry (some (lines, fails)) filter =
    if fails then err failed_read else ok (keep filter (parse_lines trim entry lines))

unfoldable pub parse_passwd_filter : Reader → (User → Bool) → Result ReadError (List User)
parse_passwd_filter = parse_filter trim_space (λ line. user_of_parts (split b':' line))

-- A line of a group file is not trimmed.
unfoldable pub parse_group_filter : Reader → (Group → Bool) → Result ReadError (List Group)
parse_group_filter = parse_filter (λ line. line) (λ line. group_of_parts (split b':' line))

unfoldable pub parse_sub_id_filter : Reader → (SubId → Bool) → Result ReadError (List SubId)
parse_sub_id_filter = parse_filter trim_space (λ line. sub_id_of_parts (split b':' line))

unfoldable pub parse_id_map_filter : Reader → (IdMap → Bool) → Result ReadError (List IdMap)
parse_id_map_filter = parse_filter trim_space (λ line. id_map_of_parts (fields line))
