-- ===== src/Configs/Validate/Mounts.antt =====
-- The checks of a rootless configuration: libcontainer/configs/validate/rootless.go. An ID that is read
-- from an option is an `int`; the fields of a mapping come from uint32 values.
use sysbox_runc.Prelude.{
  ◌+◌, Bool, true, false, not, ◌&&◌, ◌||◌, Option, none, some, List, [], ◌∷◌, if◌then◌else◌, ◌==◌,
  nat_eq, ltb, leb,
}
use sysbox_runc.Prelude.Int.{ℤ, pos, negsuc}
use sysbox_runc.Prelude.Text.{Text, NumError, split, runes, strip_prefix, parse_int}
use sysbox_runc.Prelude.Text.Scan.{skip_space, leading_digits}
use sysbox_runc.Configs.Namespaces.{new_user, contains_ns}
use sysbox_runc.Configs.HostIds.{IdMap}
use sysbox_runc.Configs.Validate.{
  Config, ValidateError, rootless_needs_user_namespace, rootless_needs_uid_mapping,
  rootless_needs_gid_mapping, unmapped_uid, unmapped_gid, refuse_if, ◌then_check◌,
}

unfoldable pub has_id_mapping : ℤ → List IdMap → Bool
has_id_mapping (negsuc n) mappings = false
has_id_mapping (pos id) [] = false
has_id_mapping (pos id) (m ∷ mappings) =
    (leb m.container_id id && ltb id (m.container_id + m.size)) || has_id_mapping (pos id) mappings

-- The sign and the digits that `%d` reads; what follows them stays unread.
abbrev pub number_text : Text → Text
number_text [] = []
number_text (c ∷ cs) =
    if (c == b'-') || (c == b'+') then c ∷ leading_digits cs else leading_digits (c ∷ cs)

abbrev pub without_error : ℤ × Option NumError → Option ℤ
without_error (n, none) = some n
without_error (n, some e) = none

-- `fmt.Sscanf(s, prefix + "%d", &n)`: the number, if there is one and no error.
unfoldable pub scan_int : Text → Text → Option ℤ
scan_int prefix s = elim (strip_prefix prefix s) [
  | none ↦ none
  | some rest ↦ elim (skip_space rest) [
    | none ↦ none
    | some text ↦ without_error (parse_int (number_text text))
  ]
]

-- One option that names an ID: an option that is not read is left to the kernel.
unfoldable pub check_id : ValidateError → List IdMap → Option ℤ → Option ValidateError
check_id e mappings none = none
check_id e mappings (some id) = refuse_if (not (has_id_mapping id mappings)) e

-- Ranging over a nil slice is ranging over an empty one.
unfoldable pub mappings_of : Option (List IdMap) → List IdMap
mappings_of none = []
mappings_of (some ms) = ms

unfoldable pub check_option : Config → Text → Option ValidateError
check_option c opt =
    check_id unmapped_uid (mappings_of c.uid_mappings) (scan_int (runes "uid=") opt)
    then_check check_id unmapped_gid (mappings_of c.gid_mappings) (scan_int (runes "gid=") opt)

unfoldable pub check_options : Config → List Text → Option ValidateError
check_options c [] = none
check_options c (opt ∷ opts) = check_option c opt then_check check_options c opts

unfoldable pub rootless_mounts : Config → List Text → Option ValidateError
rootless_mounts c [] = none
rootless_mounts c (data_text ∷ mounts) =
    check_options c (split b',' data_text) then_check rootless_mounts c mounts

abbrev pub is_empty_list : List IdMap → Bool
is_empty_list [] = true
is_empty_list (_ ∷ _) = false

unfoldable pub rootless_mappings : Config → Option ValidateError
rootless_mappings c =
    refuse_if (not (contains_ns new_user c.namespaces)) rootless_needs_user_namespace
    then_check refuse_if (is_empty_list (mappings_of c.uid_mappings)) rootless_needs_uid_mapping
    then_check refuse_if (is_empty_list (mappings_of c.gid_mappings)) rootless_needs_gid_mapping

unfoldable pub rootless_euid : Config → Option ValidateError
rootless_euid c = rootless_mappings c then_check rootless_mounts c c.mounts
