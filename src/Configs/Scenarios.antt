-- ===== src/Configs/Scenarios.antt =====
-- Concrete mappings and configurations.
use sysbox_runc.Prelude.{
  ◌≡◌, ◌≢◌, refl, arith, true, false, none, [], ◌∷◌, ok, string_eq, All, length,
}
use sysbox_runc.Configs.Namespaces.{
  Namespaces, new_user, new_net, new_uts, new_ns, contains_ns, index, path_of,
}
use sysbox_runc.Configs.HostIds.{IdConfig, setup_user_namespace}
use sysbox_runc.Configs.HostIds.Isolation.{IsOwnedBy, setup_user_namespace-IsIsolated}
use sysbox_runc.Configs.Validate.{
  Host, Config, rootfs, network, hostname, security, is_some, user_namespace, cgroup_namespace,
  time_namespace, check_sysctls, check_sysctl, is_ipc_sysctl, host_net, intel_rdt,
}
use sysbox_runc.Configs.Validate.Run.{validate}
use sysbox_runc.Configs.Validate.Confined.{IsConfined, validate-IsConfined}
use sysbox_runc.Syscont.Spec.{LinuxIdMapping, Linux}
use sysbox_runc.Syscont.IdMappings.Config.{IsIsolated}

abbrev user_space : Namespaces
user_space = record { type = new_user; path = "" } ∷ []

abbrev one_range : LinuxIdMapping
one_range = record { container_id = 0; host_id = 231072; size = 65536 }

abbrev linux : Linux
linux = record { namespaces = []; uid_mappings = one_range ∷ []; gid_mappings = one_range ∷ [] }

other_root : one_range.host_id ≢ 0
other_root = ground arith

abbrev linux-IsIsolated : IsIsolated linux
linux-IsIsolated = record {
  uid = one_range;
  gid = one_range;
  one_uid = refl;
  one_gid = refl;
  uid_from_zero = refl;
  gid_from_zero = refl;
  uid_range = omega arith;
  gid_range = omega arith;
  same_host_id = refl;
  not_root = other_root;
}

abbrev config : IdConfig
config = record {
  namespaces = user_space;
  uid_mappings = none;
  gid_mappings = none;
  devices = record { uid = 0; gid = 0 } ∷ [];
}

setup_user_namespace-IsIsolated_example :
    (out : IdConfig) × (setup_user_namespace linux config ≡ ok out)
    × All (IsOwnedBy 231072) out.devices
    × (length out.devices ≡ length config.devices)
    × (linux-IsIsolated.uid.host_id ≢ 0)
setup_user_namespace-IsIsolated_example =
    setup_user_namespace-IsIsolated linux config linux-IsIsolated (unfold contains_ns index in refl)
      refl refl

abbrev full_config : Config
full_config = record {
  rootfs = "/rootfs";
  namespaces =
      record { type = new_net; path = "" }
      ∷ record { type = new_uts; path = "" }
      ∷ record { type = new_ns; path = "" }
      ∷ [];
  networks = 1;
  routes = 0;
  hostname = "box";
  mask_paths = "/proc/kcore" ∷ [];
  readonly_paths = [];
  process_label = "";
  uid_mappings = none;
  gid_mappings = none;
  has_time_offsets = false;
  sysctl = "net.ipv4.ip_forward" ∷ "kernel.domainname" ∷ [];
  intel_rdt = none;
  rootless_euid = false;
  mounts = [];
}

abbrev kernel : Host
kernel = record {
  resolved = λ path. ok path;
  cleaned = λ path. path;
  selinux_enabled = false;
  user_namespaces = true;
  cgroup_namespaces = true;
  time_namespaces = true;
  is_host_net_ns = λ path. ok false;
  cat_enabled = false;
  mba_enabled = false;
}

validate-IsConfined_example : IsConfined kernel full_config
unfolding validate rootfs network hostname security is_some user_namespace cgroup_namespace
    time_namespace check_sysctls check_sysctl is_ipc_sysctl host_net intel_rdt contains_ns index
    path_of
validate-IsConfined_example = validate-IsConfined kernel full_config refl
