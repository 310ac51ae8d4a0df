-- ===== src/Cgroups/Params.antt =====
-- The parsers of cgroup files: `ParseUint` and `GetCgroupParamKeyValue` of
-- libcontainer/cgroups/fscommon/utils.go, `parseCgroupFromReader` and `getHugePageSizeFromFilenames`
-- of libcontainer/cgroups/utils.go.
pub mod Reading
use sysbox_runc.Prelude.{
  ℕ, ◌≡◌, ◌/◌, ◌^◌, Bool, true, false, Option, none, some, List, [], ◌∷◌, ◌++◌, Result, ok, err,
  if◌then◌else◌, ◌==◌, nat_eq, list_eq, put, leb,
}
use sysbox_runc.Prelude.Int.{ℤ, pos, negsuc}
use sysbox_runc.Prelude.Decimal.{format_nat}
use sysbox_runc.Prelude.Text.{
  Text, NumError, syntax, range, split, fields, cut, strip_prefix, strip_suffix, runes, parse_int,
  parse_uint, max_uint64,
}

-- What `ParseInt` tells of a text that `ParseUint` refuses: a value below zero is read as zero, as the
-- kernel shows some statistics so. The value that Go returns beside an error is left out.
abbrev pub or_zero : NumError → ℤ → Option NumError → Result NumError ℕ
or_zero e (pos _) _ = err e
or_zero e (negsuc _) none = ok 0
or_zero e (negsuc _) (some range) = ok 0
or_zero e (negsuc _) (some syntax) = err e

unfoldable pub parse_cgroup_uint : Text → Result NumError ℕ
parse_cgroup_uint s = elim (parse_uint max_uint64 s) [
  | ok n ↦ ok n
  | err e ↦ or_zero e (parse_int s).0 (parse_int s).1
]

pub data ParamError : Type 0 where
  not_valid_format : ParamError
  bad_number : NumError → ParamError

abbrev key_value : Text → Result NumError ℕ → Result ParamError (Text × ℕ)
key_value key (ok n) = ok (key, n)
key_value key (err e) = err (bad_number e)

abbrev key_value_of_parts : List Text → Result ParamError (Text × ℕ)
key_value_of_parts (key ∷ value ∷ []) = key_value key (parse_cgroup_uint value)
key_value_of_parts _ = err not_valid_format

unfoldable pub get_cgroup_param_key_value : Text → Result ParamError (Text × ℕ)
get_cgroup_param_key_value t = key_value_of_parts (fields t)

pub data CgroupError : Type 0 where
  invalid_entry : Text → CgroupError
  failed_read : CgroupError

-- `cgroups[subs] = path` for each of the subsystems.
unfoldable pub put_all : List Text → Text → List (Text × Text) → List (Text × Text)
put_all [] path cgroups = cgroups
put_all (subs ∷ subsystems) path cgroups = put_all subsystems path (put subs path cgroups)

-- `strings.SplitN(text, ":", 3)`, where there are three parts: the second and the third.
unfoldable pub cgroup_parts : Text → Option (Text × Text)
cgroup_parts text = elim (cut b':' text) [ none ↦ none | some (id, tail) ↦ cut b':' tail ]

unfoldable pub parse_cgroup_lines :
    List (Text × Text) → List Text → Result CgroupError (List (Text × Text))
parse_cgroup_lines cgroups [] = ok cgroups
parse_cgroup_lines cgroups (text ∷ lines) = elim (cgroup_parts text) [
  | none ↦ err (invalid_entry text)
  | some (subsystems, path) ↦
      parse_cgroup_lines (put_all (split b',' subsystems) path cgroups) lines
]

-- A reader is the lines that it yields and whether it ends in an error.
unfoldable pub parse_cgroup_from_reader : List Text → Bool → Result CgroupError (List (Text × Text))
parse_cgroup_from_reader lines fails = elim (parse_cgroup_lines [] lines) [
  | err e ↦ err e
  | ok cgroups ↦ if fails then err failed_read else ok cgroups
]

unfoldable pub page_size : Text → ℤ → Text
page_size val (negsuc _) = val ++ runes "KB"
page_size val (pos size) =
    if leb (2 ^ 20) size
    then format_nat (size / 2 ^ 20) ++ runes "GB"
    else if leb (2 ^ 10) size
    then format_nat (size / 2 ^ 10) ++ runes "MB"
    else val ++ runes "KB"

-- The size in a file name, as text; a name of another form is passed over.
unfoldable pub size_part : Text → Option Text
size_part file = elim (strip_prefix (runes "hugepages-") file) [
  | none ↦ none
  | some val ↦ strip_suffix (runes "kB") val
]

abbrev add_size : Text → Option NumError → Result NumError (List Text) → Result NumError (List Text)
add_size size (some e) rest = err e
add_size size none (err e) = err e
add_size size none (ok sizes) = ok (size ∷ sizes)

unfoldable pub huge_page_sizes : List Text → Result NumError (List Text)
huge_page_sizes [] = ok []
huge_page_sizes (file ∷ file_names) =
    let rest = huge_page_sizes file_names in
    elim (size_part file) [
      | none ↦ rest
      | some val ↦ add_size (page_size val (parse_int val).0) (parse_int val).1 rest
    ]
