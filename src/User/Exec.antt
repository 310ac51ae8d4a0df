-- ===== src/User/Exec.antt =====
-- The user that a process runs as: `GetExecUser` of libcontainer/user/user.go.
pub mod Asked
pub mod Origin
use sysbox_runc.Prelude.{
  ℕ, ◌≡◌, Bool, true, false, not, ◌&&◌, ◌||◌, Option, none, some, List, [], ◌∷◌, ◌^◌, ◌-◌, Result,
  ok, err, if◌then◌else◌, ◌==◌, list_eq, nat_eq, get_elem?, contains, map, ltb, leb,
}
use sysbox_runc.Prelude.Int.{ℤ, pos, negsuc, int_eq}
use sysbox_runc.Prelude.Text.{Text, split, parse_int, NumError}
use sysbox_runc.User.Parse.{
  User, Group, ReadError, nil_source, failed_read, Reader, string_part, parse_passwd_filter,
  parse_group_filter,
}

abbrev pub max_id : ℕ
max_id = 2 ^ 31 - 1

-- `minId <= id && id <= maxId`
abbrev pub in_id_range : ℤ → Bool
in_id_range (pos n) = leb n max_id
in_id_range (negsuc n) = false

pub record ExecUser : Type 0 where
  pub uid : ℤ
  pub gid : ℤ
  pub sgids : List ℤ
  pub home : Text

pub data ExecError : Type 0 where
  unreadable_users unknown_user unreadable_groups unknown_group bad_range : ExecError

-- The fields of a new `ExecUser`.
abbrev pub root_user : ExecUser
root_user = record { uid = pos 0; gid = pos 0; sgids = []; home = [] }

abbrev pub default_user : Option ExecUser → ExecUser
default_user none = root_user
default_user (some defaults) = defaults

abbrev pub is_numeric : Text → Bool
is_numeric arg = elim (parse_int arg).1 [ none ↦ true | some _ ↦ false ]

-- The filter of the passwd entries.
unfoldable pub is_user : Text → ExecUser → User → Bool
is_user user_arg defaults u =
    if user_arg == []
    then u.uid == defaults.uid
    else if is_numeric user_arg
    then (parse_int user_arg).0 == u.uid
    else u.name == user_arg

-- What is read; the error of a nil source is passed over.
unfoldable pub entries_of : {A : Type 0} → Result ReadError (List A) → Option (List A)
entries_of (ok entries) = some entries
entries_of (err nil_source) = some []
entries_of (err failed_read) = none

-- The user, and the name of its entry.
unfoldable pub resolve_user : Text → ExecUser → List User → Result ExecError (ExecUser × Text)
resolve_user user_arg user (u ∷ users) =
    ok (record user { uid = u.uid; gid = u.gid; home = u.home }, u.name)
resolve_user user_arg user [] =
    if user_arg == []
    then ok (user, [])
    else if not (is_numeric user_arg)
    then err unknown_user
    else if not (in_id_range (parse_int user_arg).0)
    then err bad_range
    else ok (record user { uid = (parse_int user_arg).0 }, [])

-- The filter of the group entries.
unfoldable pub is_group : Text → Text → Group → Bool
is_group group_arg matched_name g =
    if group_arg == []
    then contains g.members matched_name
    else if is_numeric group_arg
    then (parse_int group_arg).0 == g.gid
    else g.name == group_arg

unfoldable pub explicit_group : Text → ExecUser → List Group → Result ExecError ExecUser
explicit_group group_arg user (g ∷ groups) = ok (record user { gid = g.gid })
explicit_group group_arg user [] =
    if not (is_numeric group_arg)
    then err unknown_group
    else if not (in_id_range (parse_int group_arg).0)
    then err bad_range
    else ok (record user { gid = (parse_int group_arg).0 })

unfoldable pub group_ids : List Group → List ℤ
group_ids [] = []
group_ids (g ∷ groups) = g.gid ∷ group_ids groups

-- Supplementary groups, where no group is given.
unfoldable pub supplementary : ExecUser → List Group → ExecUser
supplementary user [] = user
supplementary user (g ∷ groups) = record user { sgids = group_ids (g ∷ groups) }

unfoldable pub resolve_group : Text → Reader → ExecUser × Text → Result ExecError ExecUser
resolve_group group_arg group (user, matched_name) =
    if (group_arg == []) && (matched_name == [])
    then ok user
    else elim (entries_of (parse_group_filter group (is_group group_arg matched_name))) [
      | none ↦ err unreadable_groups
      | some groups ↦
          if group_arg == []
          then ok (supplementary user groups)
          else explicit_group group_arg user groups
    ]

abbrev pub and_group :
    Text → Reader → Result ExecError (ExecUser × Text) → Result ExecError ExecUser
and_group group_arg group (err e) = err e
and_group group_arg group (ok user) = resolve_group group_arg group user

abbrev pub user_part : Text → Text
user_part user_spec = string_part (get_elem? (split b':' user_spec) 0)

abbrev pub group_part : Text → Text
group_part user_spec = string_part (get_elem? (split b':' user_spec) 1)

unfoldable pub get_exec_user : Text → Option ExecUser → Reader → Reader → Result ExecError ExecUser
get_exec_user user_spec defaults passwd group =
    let user = default_user defaults in
    let user_arg = user_part user_spec in
    elim (entries_of (parse_passwd_filter passwd (is_user user_arg user))) [
      | none ↦ err unreadable_users
      | some users ↦ and_group (group_part user_spec) group (resolve_user user_arg user users)
    ]
