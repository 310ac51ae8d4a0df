-- ===== src/User/Groups.antt =====
-- `GetAdditionalGroups` of libcontainer/user/user.go. The set of IDs is a list with no duplicate; the
-- order in which Go's map yields them is not modelled.
pub mod Known
use sysbox_runc.Prelude.{
  ℕ, ◌≡◌, Bool, true, false, not, ◌&&◌, ◌||◌, Option, none, some, List, [], ◌∷◌, Result, ok, err,
  if◌then◌else◌, ◌==◌, list_eq, nat_eq, contains, suc,
}
use sysbox_runc.Prelude.Int.{ℤ, pos, negsuc, int_eq}
use sysbox_runc.Prelude.Decimal.{format_nat}
use sysbox_runc.Prelude.Text.{Text, parse_int}
use sysbox_runc.User.Parse.{Group, Reader, parse_group_filter}
use sysbox_runc.User.Exec.{in_id_range, is_numeric}

-- `strconv.Itoa`
unfoldable pub itoa : ℤ → Text
itoa (pos n) = format_nat n
itoa (negsuc n) = b'-' ∷ format_nat (suc n)

unfoldable pub names_group : Text → Group → Bool
names_group ag g = (g.name == ag) || (itoa g.gid == ag)

unfoldable pub names_any : List Text → Group → Bool
names_any [] g = false
names_any (ag ∷ additional_groups) g = names_group ag g || names_any additional_groups g

-- The inner loop: the ID of the first group with the name or the number that is not in the set.
unfoldable pub find_new_group : Text → List ℤ → List Group → Option ℤ
find_new_group ag gids [] = none
find_new_group ag gids (g ∷ groups) =
    if names_group ag g && not (contains gids g.gid)
    then some g.gid
    else find_new_group ag gids groups

pub data GroupsError : Type 0 where
  unreadable unknown out_of_range : GroupsError

-- `gidMap[gid] = struct{}{}`
abbrev pub add_gid : ℤ → List ℤ → List ℤ
add_gid gid gids = if contains gids gid then gids else gid ∷ gids

-- The body of the outer loop.
unfoldable pub add_group : List Group → Text → List ℤ → Result GroupsError (List ℤ)
add_group groups ag gids = elim (find_new_group ag gids groups) [
  | some gid ↦ ok (add_gid gid gids)
  | none ↦
      if not (is_numeric ag)
      then err unknown
      else if not (in_id_range (parse_int ag).0)
      then err out_of_range
      else ok (add_gid (parse_int ag).0 gids)
]

abbrev pub and_then :
    Result GroupsError (List ℤ)
    → (List ℤ → Result GroupsError (List ℤ))
    → Result GroupsError (List ℤ)
and_then (ok gids) f = f gids
and_then (err e) f = err e

unfoldable pub add_groups : List Group → List Text → List ℤ → Result GroupsError (List ℤ)
add_groups groups [] gids = ok gids
add_groups groups (ag ∷ additional_groups) gids =
    and_then (add_group groups ag gids) (add_groups groups additional_groups)

unfoldable pub get_additional_groups : List Text → Reader → Result GroupsError (List ℤ)
get_additional_groups additional_groups none = add_groups [] additional_groups []
get_additional_groups additional_groups (some group) =
    elim (parse_group_filter (some group) (names_any additional_groups)) [
      | err _ ↦ err unreadable
      | ok groups ↦ add_groups groups additional_groups []
    ]
