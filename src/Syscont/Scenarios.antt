-- ===== src/Syscont/Scenarios.antt =====
-- Concrete ID mappings and namespaces of a system container.
use sysbox_runc.Prelude.{
  none, String, string_eq, not, contains, keep, ◌&&◌, ◌||◌, ℕ, ◌≡◌, refl, arith, ◌⊎◌, true, false,
  some, List, [], ◌∷◌, Result, ok, err, if◌then◌else◌,
}
use sysbox_runc.Syscont.Spec.{LinuxIdMapping, Linux, Mgr}
use sysbox_runc.Syscont.IdMappings.{
  MappingError, merge_id_mappings, merge_sorted, merge_from, sort_id_mappings, insert_mapping,
  mapping_less, check_first, check_mappings, validate_id_mappings, override_mappings,
  cfg_id_mappings, alloc_id_mappings, subid, id_range_min, default_uid, default_gid,
}
use sysbox_runc.Syscont.IdMappings.Merge.{maps_to, merge_id_mappings-maps_to}
use sysbox_runc.Syscont.IdMappings.Config.{
  IsIsolated, validate_id_mappings-IsIsolated, cfg_id_mappings_cases,
}
use sysbox_runc.Syscont.Namespaces.{ns_types, set_difference, cfg_namespaces, add_namespaces}
use sysbox_runc.Syscont.Process.{Process}
use sysbox_runc.Syscont.Seccomp.{
  SeccompAction, act_allow, act_errno, arch_x86_64, Seccomp, is_deny, has_supported_arch,
  convert_syscalls, cfg_seccomp,
}
use sysbox_runc.Syscont.Seccomp.Calls.{allows, denies, cfg_seccomp-whitelist, cfg_seccomp-blacklist}
use sysbox_runc.Syscont.Namespaces.Paths.{find_path, find_path-cfg_namespaces}

abbrev range : ℕ → ℕ → ℕ → LinuxIdMapping
range container host count = record { container_id = container; host_id = host; size = count }

-- Two ranges that follow each other, the second one first.
abbrev two_ranges : List LinuxIdMapping
two_ranges = range 65536 265536 10 ∷ range 0 200000 65536 ∷ []

merge_id_mappings-maps_to_example :
    maps_to 65537 265537 (range 0 200000 65546 ∷ []) ≡ maps_to 65537 265537 two_ranges
merge_id_mappings-maps_to_example =
    merge_id_mappings-maps_to 65537 265537 two_ranges
      (
        record { container_fits = omega arith; host_fits = omega arith },
        (record { container_fits = omega arith; host_fits = omega arith }, tt),
      )
      (unfold merge_id_mappings merge_sorted merge_from sort_id_mappings insert_mapping
          mapping_less in
        refl)

abbrev shared : Linux
shared = record {
  namespaces =
      record { type = "pid"; path = "" }
      ∷ record { type = "ipc"; path = "" }
      ∷ record { type = "uts"; path = "" }
      ∷ record { type = "mount"; path = "" }
      ∷ record { type = "network"; path = "/run/net" }
      ∷ [];
  uid_mappings = two_ranges;
  gid_mappings = two_ranges;
}

abbrev validated : Linux
validated = record shared {
  uid_mappings = range 0 200000 65546 ∷ [];
  gid_mappings = range 0 200000 65546 ∷ [];
}

validate_id_mappings-IsIsolated_example : IsIsolated validated
validate_id_mappings-IsIsolated_example = validate_id_mappings-IsIsolated shared (
    unfold validate_id_mappings check_first check_mappings merge_id_mappings merge_sorted merge_from
      sort_id_mappings insert_mapping mapping_less in
    refl)

abbrev absent : Mgr
absent = record { enabled = false; userns = ""; uid_mappings = []; gid_mappings = [] }

-- No range is left.
abbrev refuse : ℕ → Result MappingError (ℕ × ℕ)
refuse n = err MappingError.subid_allocation_failed

abbrev unmapped : Linux
unmapped = record shared { uid_mappings = []; gid_mappings = [] }

abbrev allocated : Linux
allocated = record shared {
  uid_mappings = range 0 default_uid id_range_min ∷ [];
  gid_mappings = range 0 default_gid id_range_min ∷ [];
}

cfg_id_mappings_cases_example :
    IsIsolated allocated
    ⊎ ((ids : ℕ × ℕ) × ((if absent.enabled
            then refuse id_range_min
            else ok (default_uid, default_gid))
          ≡ ok ids)
        × (allocated.uid_mappings
            ≡ record { container_id = 0; host_id = ids.0; size = id_range_min } ∷ [])
        × (allocated.gid_mappings
            ≡ record { container_id = 0; host_id = ids.1; size = id_range_min } ∷ []))
cfg_id_mappings_cases_example =
    cfg_id_mappings_cases refuse absent unmapped
      (unfold cfg_id_mappings override_mappings alloc_id_mappings subid in refl)

abbrev pod : Mgr
pod = record absent { enabled = true; userns = "/run/user" }

find_path-cfg_namespaces_example :
    find_path "user" (add_namespaces (λ names. names) pod shared).namespaces ≡ some "/run/user"
find_path-cfg_namespaces_example =
    find_path-cfg_namespaces (λ names. names) (λ names t. refl) pod shared
      (add_namespaces (λ names. names) pod shared) "user"
      (unfold cfg_namespaces set_difference ns_types in refl)

-- A profile of one rule, which denies `mount` and `reboot`.
abbrev profile : SeccompAction → Seccomp
profile default = record {
  default_action = default;
  architectures = arch_x86_64 ∷ [];
  syscalls = record { names = "mount" ∷ "reboot" ∷ []; action = act_errno; args = [] } ∷ [];
}

-- `mount` is a syscall of a system container, `reboot` is not.
abbrev converted : SeccompAction → Seccomp
converted default = record (profile default) {
  syscalls =
      convert_syscalls ("mount" ∷ []) [] (λ names. names) (is_deny default)
        (profile default).syscalls;
}

cfg_seccomp-whitelist_example :
    (denies "mount" (converted act_errno).syscalls
      ≡ (denies "mount" (profile act_errno).syscalls && false))
    × (allows "mount" (converted act_errno).syscalls
        ≡ (allows "mount" (profile act_errno).syscalls || true))
cfg_seccomp-whitelist_example =
    cfg_seccomp-whitelist ("mount" ∷ []) [] (λ names. names) (λ names t. refl) (profile act_errno)
      (converted act_errno) "mount" (unfold has_supported_arch in refl) refl
      (unfold cfg_seccomp has_supported_arch in refl)

cfg_seccomp-blacklist_example :
    denies "mount" (converted act_allow).syscalls
    ≡ (denies "mount" (profile act_allow).syscalls && true)
cfg_seccomp-blacklist_example =
    cfg_seccomp-blacklist ("mount" ∷ []) [] (λ names. names) (λ names t. refl) (profile act_allow)
      (converted act_allow) "mount" (unfold has_supported_arch in refl) refl
      (unfold cfg_seccomp has_supported_arch in refl)

abbrev systemd : Process
systemd = record {
  args = "/sbin/init" ∷ [];
  env = "SYSBOX_SYSCONT_MODE=TRUE" ∷ "HOME=/root" ∷ [];
  uid = 0;
  capabilities = record {
    bounding = [];
    effective = [];
    inheritable = [];
    permitted = [];
    ambient = [];
  };
  oom_score_adj = none;
}

-- The paths of the first list that the second one lacks.
abbrev remove_paths : List String → List String → List String
remove_paths xs ys = keep (λ x. not (contains ys x)) xs
