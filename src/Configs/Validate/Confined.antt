-- ===== src/Configs/Validate/Confined.antt =====
-- What a configuration that passes `Validate` is confined to.
use sysbox_runc.Prelude.{
  ◌≡◌, ◌⊎◌, inl, inr, sym, ap, arith, Bool, true, false, not, none, some, List, [], ◌∷◌, String,
  Result, ok, err, if◌then◌else◌, ◌==◌, string_eq, nat_eq, All, Bool-cases,
}
use text.Mathlib.Text.{starts_with}
use sysbox_runc.Configs.Namespaces.{
  new_net, new_uts, new_ns, new_user, new_ipc, contains_ns, path_of,
}
use sysbox_runc.Configs.Validate.{
  Config, Host, ValidateError, not_absolute_or_symlink, refuse_if, rootfs, network, hostname,
  security, is_some, user_namespace, cgroup_namespace, time_namespace, host_net, is_ipc_sysctl,
  check_host_net, check_sysctl, check_sysctls, intel_rdt,
}
use sysbox_runc.Configs.Validate.Mounts.{rootless_euid}
use sysbox_runc.Configs.Validate.Run.{validate}
use sysbox_runc.Configs.Validate.Rootless.{IsRootless, then_check-none, rootless_euid-IsRootless}

-- A kernel parameter that is accepted: one of a namespace type that the configuration lists, whether
-- the namespace is new or is joined by its path, and for `net.` one whose namespace is not found to be
-- the host's.
pub data IsCovered (host : Host) (c : Config) (s : String) : Type 0 where
  in_ipc : is_ipc_sysctl s ≡ true → contains_ns new_ipc c.namespaces ≡ true → IsCovered host c s
  in_net :
      starts_with s "net." ≡ true
      → contains_ns new_net c.namespaces ≡ true
      → (path_of new_net c.namespaces ≡ "")
        ⊎ (host.is_host_net_ns (path_of new_net c.namespaces) ≡ ok false)
      → IsCovered host c s
  in_uts : s ≡ "kernel.domainname" → contains_ns new_uts c.namespaces ≡ true → IsCovered host c s

pub record IsConfined (host : Host) (c : Config) : Type 0 where
  pub real_rootfs : host.resolved c.rootfs ≡ ok (host.cleaned c.rootfs)
  pub listed_network :
      (contains_ns new_net c.namespaces ≡ true) ⊎ ((c.networks ≡ 0) × (c.routes ≡ 0))
  pub listed_hostname : (c.hostname ≡ "") ⊎ (contains_ns new_uts c.namespaces ≡ true)
  pub listed_mounts :
      ((c.mask_paths ≡ []) × (c.readonly_paths ≡ [])) ⊎ (contains_ns new_ns c.namespaces ≡ true)
  pub listed_users :
      ((c.uid_mappings ≡ none) × (c.gid_mappings ≡ none))
      ⊎ (contains_ns new_user c.namespaces ≡ true)
  pub covered_sysctls : All (IsCovered host c) c.sysctl
  pub rootless : (c.rootless_euid ≡ false) ⊎ IsRootless c

check_host_net_lem :
    (found : Result ValidateError Bool) → check_host_net found ≡ none → found ≡ ok false
check_host_net_lem found h = ground arith

host_net_lem :
    (host : Host) (c : Config)
    → host_net host c ≡ ok false
    → (contains_ns new_net c.namespaces ≡ true)
      × ((path_of new_net c.namespaces ≡ "")
          ⊎ (host.is_host_net_ns (path_of new_net c.namespaces) ≡ ok false))
unfolding host_net
host_net_lem host c h = elim (Bool-cases (contains_ns new_net c.namespaces)) [
  | inr unlisted ↦ let clash : ok true ≡ ok false = rw (host_net, unlisted) at h in cc
  | inl listed ↦ elim (Bool-cases (path_of new_net c.namespaces == "")) [
    | inl new ↦ (listed, inl ((string_eq.beq_iff (path_of new_net c.namespaces) "").0 new))
    | inr joined ↦ (listed, inr (rw (host_net, listed, joined) at h))
  ]
]

check_sysctl-IsCovered :
    (host : Host) (c : Config) (s : String) → check_sysctl host c s ≡ none → IsCovered host c s
unfolding check_sysctl
check_sysctl-IsCovered host c s h = elim (Bool-cases (is_ipc_sysctl s)) [
  | inl ipc ↦ in_ipc ipc (ground arith)
  | inr other ↦ elim (Bool-cases (starts_with s "net.")) [
    | inl net ↦
        let own = host_net_lem host c (check_host_net_lem (host_net host c) (ground arith)) in
        in_net net own.0 own.1
    | inr rest ↦ in_uts ((string_eq.beq_iff s "kernel.domainname").0 (ground arith)) (ground arith)
  ]
]

check_sysctls-IsCovered :
    (host : Host) (c : Config) (keys : List String)
    → check_sysctls host c keys ≡ none
    → All (IsCovered host c) keys
unfolding check_sysctls
check_sysctls-IsCovered host c [] h = tt
check_sysctls-IsCovered host c (s ∷ keys) h =
    let parts = then_check-none h in
    (check_sysctl-IsCovered host c s parts.0, check_sysctls-IsCovered host c keys parts.1)

network_lem :
    (c : Config)
    → network c ≡ none
    → (contains_ns new_net c.namespaces ≡ true) ⊎ ((c.networks ≡ 0) × (c.routes ≡ 0))
unfolding network
network_lem c h = ground arith

hostname_lem :
    (c : Config) → hostname c ≡ none → (c.hostname ≡ "") ⊎ (contains_ns new_uts c.namespaces ≡ true)
unfolding hostname
hostname_lem c h = elim (Bool-cases (c.hostname == "")) [
  | inl unset ↦ inl ((string_eq.beq_iff c.hostname "").0 unset)
  | inr named ↦ inr (ground arith)
]

security_lem :
    (host : Host) (c : Config)
    → security host c ≡ none
    → ((c.mask_paths ≡ []) × (c.readonly_paths ≡ [])) ⊎ (contains_ns new_ns c.namespaces ≡ true)
unfolding security
security_lem host c h = ground arith

user_namespace_lem :
    (host : Host) (c : Config)
    → user_namespace host c ≡ none
    → ((c.uid_mappings ≡ none) × (c.gid_mappings ≡ none))
      ⊎ (contains_ns new_user c.namespaces ≡ true)
unfolding user_namespace is_some
user_namespace_lem host c h = ground arith

same_path_lem :
    (cleaned path : String)
    → refuse_if (not (cleaned == path)) not_absolute_or_symlink ≡ none
    → path ≡ cleaned
same_path_lem cleaned path h = sym ((string_eq.beq_iff cleaned path).0 (ground arith))

rootfs_of :
    (cleaned : String) (found : Result ValidateError String)
    → elim found [
      | err e ↦ some e
      | ok path ↦ refuse_if (not (cleaned == path)) not_absolute_or_symlink
    ]
      ≡ none
    → found ≡ ok cleaned
rootfs_of cleaned (err e) h = ground arith
rootfs_of cleaned (ok path) h = ap ok (same_path_lem cleaned path h)

rootfs_lem :
    (host : Host) (c : Config)
    → rootfs host c ≡ none
    → host.resolved c.rootfs ≡ ok (host.cleaned c.rootfs)
unfolding rootfs
rootfs_lem host c h = rootfs_of (host.cleaned c.rootfs) (host.resolved c.rootfs) h

rootless_lem :
    (c : Config)
    → (if c.rootless_euid then rootless_euid c else none) ≡ none
    → (c.rootless_euid ≡ false) ⊎ IsRootless c
rootless_lem c h = elim (Bool-cases c.rootless_euid) [
  | inl set ↦ inr (rootless_euid-IsRootless c (ground arith))
  | inr unset ↦ inl unset
]

-- If a configuration passes, its rootfs is its own resolved path. Networks or routes, a hostname,
-- hidden or read-only paths and ID mappings are there only if a namespace of their type is listed, be
-- it new or joined by its path. Every kernel parameter that is set is one of the IPC namespace with an
-- IPC namespace listed, or `kernel.domainname` with a UTS namespace listed, or begins with `net.`, with
-- a network namespace listed that is new or that is not found to be the host's. If the configuration is
-- rootless, a user namespace is listed, there are mappings of users and of groups, and the IDs that are
-- read from the mount options are mapped.
pub validate-IsConfined : (host : Host) (c : Config) → validate host c ≡ none → IsConfined host c
unfolding validate
validate-IsConfined host c h =
    let h1 = then_check-none {a = rootfs host c} h in
    let h2 = then_check-none {a = network c} h1.1 in
    let h3 = then_check-none {a = hostname c} h2.1 in
    let h4 = then_check-none {a = security host c} h3.1 in
    let h5 = then_check-none {a = user_namespace host c} h4.1 in
    let h6 = then_check-none {a = cgroup_namespace host c} h5.1 in
    let h7 = then_check-none {a = time_namespace host c} h6.1 in
    let h8 = then_check-none {a = check_sysctls host c c.sysctl} h7.1 in
    let h9 = then_check-none {a = intel_rdt host c} h8.1 in
    record {
      real_rootfs = rootfs_lem host c h1.0;
      listed_network = network_lem c h2.0;
      listed_hostname = hostname_lem c h3.0;
      listed_mounts = security_lem host c h4.0;
      listed_users = user_namespace_lem host c h5.0;
      covered_sysctls = check_sysctls-IsCovered host c c.sysctl h8.0;
      rootless = rootless_lem c h9.1;
    }
