-- ===== src/Syscont/Namespaces.antt =====
-- The namespaces of a system container: `cfgNamespaces` of libsysbox/syscont/spec.go.
-- A set of names is a list of them; the order in which `Iter` of the third-party set package yields
-- the names of a set is a parameter.
pub mod Paths
use sysbox_runc.Prelude.{
  ◌≡◌, Bool, true, false, not, ◌&&◌, List, [], ◌∷◌, ◌++◌, map, String, Result, ok, err,
  if◌then◌else◌, ◌==◌, string_eq, contains, keep,
}
use sysbox_runc.Syscont.Spec.{LinuxNamespace, Linux, Mgr}

abbrev pub all_ns : List String
all_ns = "pid" ∷ "ipc" ∷ "uts" ∷ "mount" ∷ "network" ∷ "user" ∷ "cgroup" ∷ "time" ∷ []

abbrev pub req_ns : List String
req_ns = "pid" ∷ "ipc" ∷ "uts" ∷ "mount" ∷ "network" ∷ []

unfoldable pub ns_types : List LinuxNamespace → List String
ns_types [] = []
ns_types (ns ∷ namespaces) = ns.type ∷ ns_types namespaces

-- `xs.Difference(ys)`
unfoldable pub set_difference : List String → List String → List String
set_difference xs ys = keep (λ x. not (contains ys x)) xs

-- The error holds the namespaces that are shared with the host.
pub data NamespaceError : Type 0 where
  shared_with_host : List String → NamespaceError

unfoldable pub new_namespaces : List String → List LinuxNamespace
new_namespaces [] = []
new_namespaces (ns ∷ names) = record { type = ns; path = "" } ∷ new_namespaces names

-- The loop that sets the path of the user namespace.
unfoldable pub override_userns : String → List LinuxNamespace → List LinuxNamespace
override_userns userns [] = []
override_userns userns (ns ∷ namespaces) =
    (if ns.type == "user" then record ns { path = userns } else ns)
    ∷ override_userns userns namespaces

abbrev pub overrides_userns : Mgr → Bool
overrides_userns mgr = mgr.enabled && not (mgr.userns == "")

module _ (iter : List String → List String) where
  unfoldable pub add_namespaces : Mgr → Linux → Linux
  add_namespaces mgr linux =
      let added = new_namespaces (iter (set_difference all_ns (ns_types linux.namespaces))) in
      let namespaces = linux.namespaces ++ added in
      record linux {
        namespaces =
            if overrides_userns mgr then override_userns mgr.userns namespaces else namespaces;
      }

  unfoldable pub cfg_namespaces : Mgr → Linux → Result NamespaceError Linux
  cfg_namespaces mgr linux = elim (set_difference req_ns (ns_types linux.namespaces)) [
    | [] ↦ ok (add_namespaces mgr linux)
    | ns ∷ shared ↦ err (shared_with_host (ns ∷ shared))
  ]
