-- ===== src/Cgroups/Params/Reading.antt =====
-- What the parsers of cgroup files read.
use sysbox_runc.Prelude.{
  ◌≡◌, ◌∙◌, refl, ap, arith, false, Option, none, some, List, [], ◌∷◌, ◌++◌, ok, if◌then◌else◌,
  nat_eq, list_eq, lookup, put, lookup-put, contains, All, map,
}
use sysbox_runc.Prelude.Text.{Text, split, join, split-join, cut-append}
use sysbox_runc.Cgroups.Params.{put_all, cgroup_parts, parse_cgroup_lines, parse_cgroup_from_reader}

-- A line of /proc/self/cgroup: the ID of a hierarchy, its subsystems (the first one and the others)
-- and the path.
pub record CgroupEntry : Type 0 where
  pub id : Text
  pub subsystem : Text
  pub others : List Text
  pub path : Text

abbrev pub subsystems_of : CgroupEntry → List Text
subsystems_of e = e.subsystem ∷ e.others

unfoldable pub print_entry : CgroupEntry → Text
print_entry e = e.id ++ b':' ∷ (join b',' (subsystems_of e) ++ b':' ∷ e.path)

-- The ID and the list hold no colon, the subsystems no comma.
pub record IsCgroupEntry (e : CgroupEntry) : Type 0 where
  pub id_plain : contains e.id b':' ≡ false
  pub list_plain : contains (join b',' (subsystems_of e)) b':' ≡ false
  pub names_plain : All (λ s. contains s b',' ≡ false) (subsystems_of e)

-- The path of the last entry that lists a subsystem.
unfoldable pub last_path : Text → Option Text → List CgroupEntry → Option Text
last_path s found [] = found
last_path s found (e ∷ entries) =
    last_path s (if contains (subsystems_of e) s then some e.path else found) entries

cgroup_parts-print_entry :
    (e : CgroupEntry)
    → IsCgroupEntry e
    → cgroup_parts (print_entry e) ≡ some (join b',' (subsystems_of e), e.path)
unfolding cgroup_parts print_entry
cgroup_parts-print_entry e v =
    let list = join b',' (subsystems_of e) in
    ground (
      arith,
      cut-append b':' e.id (list ++ b':' ∷ e.path) v.id_plain,
      cut-append b':' list e.path v.list_plain,
    )

lookup-put_all :
    (s : Text) (subsystems : List Text) (path : Text) (m : List (Text × Text))
    → lookup s (put_all subsystems path m)
      ≡ (if contains subsystems s then some path else lookup s m)
unfolding put_all
lookup-put_all s [] path m = refl
lookup-put_all s (t ∷ subsystems) path m =
    ground (arith, lookup-put_all s subsystems path (put t path m), lookup-put t s path m)

parse_cgroup_lines-print_entry :
    (s : Text) (entries : List CgroupEntry) (m : List (Text × Text))
    → All IsCgroupEntry entries
    → (out : List (Text × Text)) × (parse_cgroup_lines m (map print_entry entries) ≡ ok out)
      × (lookup s out ≡ last_path s (lookup s m) entries)
unfolding parse_cgroup_lines last_path
parse_cgroup_lines-print_entry s [] m h = (m, refl, refl)
parse_cgroup_lines-print_entry s (e ∷ entries) m h =
    let next = put_all (subsystems_of e) e.path m in
    let (out, parsed, found) = parse_cgroup_lines-print_entry s entries next h.1 in
    let read : split b',' (join b',' (subsystems_of e)) ≡ subsystems_of e =
      split-join b',' e.subsystem e.others h.0.names_plain in
    (
      out,
      ground (arith, cgroup_parts-print_entry e h.0, read, parsed),
      found ∙ ap (λ o. last_path s o entries) (lookup-put_all s (subsystems_of e) e.path m),
    )

-- The lines of valid entries are read without an error, and each subsystem has the path of the last
-- entry that lists it.
pub parse_cgroup-print_entry :
    (s : Text) (entries : List CgroupEntry)
    → All IsCgroupEntry entries
    → (out : List (Text × Text)) × (parse_cgroup_from_reader (map print_entry entries) false
        ≡ ok out)
      × (lookup s out ≡ last_path s none entries)
unfolding parse_cgroup_from_reader lookup
parse_cgroup-print_entry s entries h =
    let (out, parsed, found) = parse_cgroup_lines-print_entry s entries [] h in
    (out, ground (arith, parsed), found)
