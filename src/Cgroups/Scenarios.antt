-- ===== src/Cgroups/Scenarios.antt =====
-- Concrete limits and lines of a cgroup.
use sysbox_runc.Prelude.{◌≡◌, refl, none, List, [], ◌∷◌, ok, map, lookup, false, list_eq, nat_eq}
use sysbox_runc.Prelude.Text.{Text, runes, join}
use sysbox_runc.Cgroups.Params.{parse_cgroup_from_reader}
use sysbox_runc.Cgroups.Params.Reading.{
  CgroupEntry, print_entry, last_path, parse_cgroup-print_entry,
}

abbrev cpu_entry : CgroupEntry
cpu_entry = record {
  id = runes "4";
  subsystem = runes "cpu";
  others = runes "cpuacct" ∷ [];
  path = runes "/a";
}

parse_cgroup-print_entry_example :
    (out : List (Text × Text)) × (parse_cgroup_from_reader (map print_entry (cpu_entry ∷ [])) false
      ≡ ok out)
    × (lookup (runes "cpu") out ≡ last_path (runes "cpu") none (cpu_entry ∷ []))
parse_cgroup-print_entry_example = parse_cgroup-print_entry (runes "cpu") (cpu_entry ∷ []) (
  record { id_plain = refl; list_plain = unfold join in refl; names_plain = (refl, (refl, tt)) },
  tt,
)
