-- ===== src/Syscont/Mounts/Scenarios.antt =====
-- Concrete mounts, with the functions on slices as the utils package documents them.
use sysbox_runc.Prelude.{
  ◌≡◌, refl, arith, Bool, true, false, none, ok, lookup, not, ◌&&◌, List, [], ◌∷◌, ◌++◌, String,
  any, keep, contains, contains-keep, string_eq,
}
use sysbox_runc.Prelude.Text.{Text, runes}
use sysbox_runc.Syscont.Process.{Process, cfg_paths, syscont_rw_paths, syscont_systemd_rw_paths}
use sysbox_runc.Syscont.Mounts.{Mount, MountSpec, mount, cfg_syscont_mounts, cfg_sysboxfs_mounts}
use sysbox_runc.Syscont.Mounts.Manager.{
  Manager, sys_mgr_setup_mounts, request_mounts, prepare_mounts, add_mgr_mounts, read_only_mount,
  prep_list,
}
use sysbox_runc.Syscont.Mounts.Manager.Conflicts.{Extends, sys_mgr_setup_mounts-Extends}
use sysbox_runc.Syscont.Mounts.Required.{
  is_foreign, is_reserved, own_mounts, is_writable_sys, no_foreign_mounts, no_writable_sys,
}
use sysbox_runc.Syscont.Mounts.SysboxFs.{start}

abbrev remove_mounts : List Mount → List Mount → (Mount → Mount → Bool) → List Mount
remove_mounts s t cmp = keep (λ m. not (any (cmp m) t)) s

abbrev contains_mount : List Mount → Mount → (Mount → Mount → Bool) → Bool
contains_mount s m cmp = any (λ x. cmp x m) s

abbrev remove_strings : List String → List String → List String
remove_strings xs ys = keep (λ x. not (contains ys x)) xs

any-remove_mounts :
    (s t : List Mount) (cmp : Mount → Mount → Bool) (p : Mount → Bool)
    → any p (remove_mounts s t cmp) ≡ any (λ m. p m && not (any (cmp m) t)) s
any-remove_mounts [] t cmp p = refl
any-remove_mounts (m ∷ s) t cmp p = ground (arith, any-remove_mounts s t cmp p)

contains-remove_strings :
    (xs ys : List String) (t : String)
    → contains (remove_strings xs ys) t ≡ (contains xs t && not (contains ys t))
contains-remove_strings xs ys t = contains-keep (λ x. not (contains ys x)) xs t

abbrev spec : MountSpec
spec = record {
  mounts =
      mount "/sys/fs/cgroup/x" "x" "bind" []
      ∷ mount "/proc" "host" "bind" []
      ∷ mount "/proc" "proc" "proc" ("hidepid=2" ∷ [])
      ∷ mount "/run" "r" "bind" []
      ∷ [];
  devices = "/dev/kmsg" ∷ [];
  read_only_root = true;
  readonly_paths = [];
}

abbrev hides_pids : Mount → Bool
hides_pids m = contains m.options "hidepid=2"

no_foreign_mounts_example :
    (any is_foreign
        (cfg_syscont_mounts remove_mounts contains_mount remove_strings false spec).mounts
      ≡ false)
    × (any
          (λ m. is_reserved m.destination && hides_pids m)
          (cfg_syscont_mounts remove_mounts contains_mount remove_strings false spec).mounts
        ≡ any hides_pids (
            own_mounts remove_mounts any-remove_mounts contains_mount remove_strings
              contains-remove_strings true false))
no_foreign_mounts_example =
    no_foreign_mounts remove_mounts any-remove_mounts contains_mount remove_strings
      contains-remove_strings false spec hides_pids

no_writable_sys_example :
    any is_writable_sys
      (cfg_syscont_mounts remove_mounts contains_mount remove_strings false spec).mounts
    ≡ false
no_writable_sys_example =
    no_writable_sys remove_mounts any-remove_mounts contains_mount remove_strings
      contains-remove_strings spec refl

abbrev join_path : Text → Text → Text
join_path a b = a ++ b'/' ∷ b

abbrev process : Process
process = record {
  args = "/sbin/init" ∷ [];
  env = [];
  uid = 0;
  capabilities = record {
    bounding = [];
    effective = [];
    inheritable = [];
    permitted = [];
    ambient = [];
  };
  oom_score_adj = none;
}

abbrev final : List String
final =
    cfg_paths remove_strings syscont_systemd_rw_paths syscont_rw_paths process
      (cfg_sysboxfs_mounts remove_mounts join_path (runes "/fs") (runes "id") start
        spec).1.readonly_paths

-- A manager that offers a directory for docker and one over `/proc`.
abbrev manager : Manager
manager = record {
  prep_mounts = λ sources. none;
  req_mounts =
      λ dirs. ok (mount "/var/lib/docker" "d" "bind" [] ∷ mount "/proc" "p" "bind" [] ∷ []);
}

abbrev with_docker : MountSpec
with_docker = record spec {
  mounts =
      spec.mounts
      ++ record {
        destination = "/var/lib/docker";
        source = runes "d";
        type = "bind";
        options = "ro" ∷ [];
      }
        ∷ [];
}

sys_mgr_setup_mounts-Extends_example :
    Extends remove_mounts any-remove_mounts remove_strings spec with_docker
unfolding sys_mgr_setup_mounts request_mounts prepare_mounts add_mgr_mounts read_only_mount
    prep_list lookup
sys_mgr_setup_mounts-Extends_example =
    sys_mgr_setup_mounts-Extends remove_mounts any-remove_mounts remove_strings manager false
      (ok (("/var/lib/docker", 0) ∷ [])) spec with_docker refl
