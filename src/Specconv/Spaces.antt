-- ===== src/Specconv/Spaces.antt =====
-- The namespaces of a configuration: the loop of `CreateLibcontainerConfig` over those of the spec,
-- and the network that it gives a namespace of its own, in libcontainer/specconv/spec_linux.go.
pub mod Unique
use sysbox_runc.Prelude.{
  Bool, true, false, not, ◌&&◌, Option, none, some, List, [], ◌∷◌, ◌++◌, String, Result, ok, err,
  if◌then◌else◌, ◌==◌, string_eq,
}
use sysbox_runc.Specconv.MountOptions.{lookup}
use sysbox_runc.Syscont.Spec.{LinuxNamespace}
use sysbox_runc.Configs.Namespaces.{
  NamespaceType, Namespace, Namespaces, new_net, new_pid, new_ns, new_uts, new_ipc, new_user,
  new_cgroup, new_time, add, contains_ns, path_of,
}

unfoldable pub namespace_mapping : List (String × NamespaceType)
namespace_mapping =
    ("pid", new_pid)
    ∷ ("network", new_net)
    ∷ ("mount", new_ns)
    ∷ ("user", new_user)
    ∷ ("ipc", new_ipc)
    ∷ ("uts", new_uts)
    ∷ ("cgroup", new_cgroup)
    ∷ ("time", new_time)
    ∷ []

pub data NamespaceError : Type 0 where
  unknown_type duplicated_type : String → NamespaceError

unfoldable pub add_spec_namespaces :
    List LinuxNamespace → Namespaces → Result NamespaceError Namespaces
add_spec_namespaces [] n = ok n
add_spec_namespaces (ns ∷ spec) n = elim (lookup namespace_mapping ns.type) [
  | none ↦ err (unknown_type ns.type)
  | some t ↦
      let rest = add_spec_namespaces spec (add t ns.path n) in
      if contains_ns t n then err (duplicated_type ns.type) else rest
]

-- The types of the networks: a new network namespace has a loopback device.
unfoldable pub networks_of : Namespaces → List String → List String
networks_of n networks =
    if contains_ns new_net n && (path_of new_net n == "") then "loopback" ∷ [] else networks
