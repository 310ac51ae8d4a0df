-- ===== src/Configs/Validate.antt =====
-- The validation of a configuration: libcontainer/configs/validate/validator.go and rootless.go.
-- What the kernel shows, and the resolution of paths in its file system, are parameters. The keys of
-- the sysctl map come in some order.
pub mod Mounts
pub mod Run
pub mod Rootless
pub mod Confined
use text.Mathlib.Text.{starts_with}
use sysbox_runc.Prelude.{
  ℕ, ◌≡◌, ◌+◌, Bool, true, false, not, ◌&&◌, ◌||◌, Option, none, some, List, [], ◌∷◌, String,
  Result, ok, err, if◌then◌else◌, ◌==◌, string_eq, nat_eq, ltb, leb, contains,
}
use sysbox_runc.Prelude.Text.{Text}
use sysbox_runc.Configs.Namespaces.{
  Namespaces, new_net, new_uts, new_ns, new_user, new_cgroup, new_time, new_ipc, contains_ns,
  path_of,
}
use sysbox_runc.Configs.HostIds.{IdMap}

pub record IntelRdt : Type 0 where
  pub l3_cache_schema : String
  pub mem_bw_schema : String

-- The parts of `configs.Config` that are read; a nil pointer, slice or map is `none`.
pub record Config : Type 0 where
  pub rootfs : String
  pub namespaces : Namespaces
  pub networks : ℕ  -- their number
  pub routes : ℕ
  pub hostname : String
  pub mask_paths : List String
  pub readonly_paths : List String
  pub process_label : String
  pub uid_mappings : Option (List IdMap)
  pub gid_mappings : Option (List IdMap)
  pub has_time_offsets : Bool
  pub sysctl : List String  -- its keys
  pub intel_rdt : Option IntelRdt
  pub rootless_euid : Bool
  pub mounts : List Text  -- their data

pub data ValidateError : Type 0 where
  bad_rootfs not_absolute_or_symlink : ValidateError
  network_without_namespace hostname_without_namespace paths_without_namespace : ValidateError
  selinux_disabled no_user_namespaces mappings_without_namespace no_cgroup_namespaces :
      ValidateError
  no_time_namespaces offsets_without_namespace : ValidateError
  sysctl_in_host_ipc sysctl_in_host_net sysctl_conflicts sysctl_not_separate stat_failed :
      ValidateError
  rdt_unsupported cat_disabled mba_disabled cat_schema_missing mba_schema_missing : ValidateError
  rootless_needs_user_namespace rootless_needs_uid_mapping rootless_needs_gid_mapping :
      ValidateError
  unmapped_uid unmapped_gid : ValidateError

-- What the kernel and the file system answer. `resolved` is the path with its symbolic links
-- evaluated, if the rootfs is there; `cleaned` is `filepath.Clean` of it.
pub record Host : Type 0 where
  pub resolved : String → Result ValidateError String
  pub cleaned : String → String
  pub selinux_enabled : Bool
  pub user_namespaces : Bool
  pub cgroup_namespaces : Bool
  pub time_namespaces : Bool
  pub is_host_net_ns : String → Result ValidateError Bool
  pub cat_enabled : Bool
  pub mba_enabled : Bool

abbrev pub refuse_if : Bool → ValidateError → Option ValidateError
refuse_if b e = if b then some e else none

-- `if err := a; err != nil { return err }`, then `b`.
infixr 30 ◌then_check◌
abbrev pub ◌then_check◌ : Option ValidateError → Option ValidateError → Option ValidateError
none then_check b = b
some e then_check b = some e

unfoldable pub is_some : {A : Type 0} → Option A → Bool
is_some none = false
is_some (some _) = true

unfoldable pub network : Config → Option ValidateError
network c =
    refuse_if (not (contains_ns new_net c.namespaces) && (ltb 0 c.networks || ltb 0 c.routes))
      network_without_namespace

unfoldable pub hostname : Config → Option ValidateError
hostname c =
    refuse_if (not (c.hostname == "") && not (contains_ns new_uts c.namespaces))
      hostname_without_namespace

abbrev pub has_any : List String → Bool
has_any [] = false
has_any (_ ∷ _) = true

unfoldable pub cgroup_namespace : Host → Config → Option ValidateError
cgroup_namespace host c =
    refuse_if (contains_ns new_cgroup c.namespaces && not host.cgroup_namespaces)
      no_cgroup_namespaces

unfoldable pub security : Host → Config → Option ValidateError
security host c =
    refuse_if
      ((has_any c.mask_paths || has_any c.readonly_paths) && not (contains_ns new_ns c.namespaces))
      paths_without_namespace
    then_check refuse_if (not (c.process_label == "") && not host.selinux_enabled) selinux_disabled

unfoldable pub user_namespace : Host → Config → Option ValidateError
unfolding is_some
user_namespace host c =
    if contains_ns new_user c.namespaces
    then refuse_if (not host.user_namespaces) no_user_namespaces
    else refuse_if (is_some c.uid_mappings || is_some c.gid_mappings) mappings_without_namespace

unfoldable pub time_namespace : Host → Config → Option ValidateError
time_namespace host c =
    if contains_ns new_time c.namespaces
    then refuse_if (not host.time_namespaces) no_time_namespaces
    else refuse_if c.has_time_offsets offsets_without_namespace

-- `validSysctlMap` and the prefix of message queues.
unfoldable pub is_ipc_sysctl : String → Bool
is_ipc_sysctl s =
    contains
      ("kernel.msgmax" ∷ "kernel.msgmnb" ∷ "kernel.msgmni" ∷ "kernel.sem" ∷ "kernel.shmall"
        ∷ "kernel.shmmax" ∷ "kernel.shmmni" ∷ "kernel.shm_rmid_forced" ∷ [])
      s
    || starts_with s "fs.mqueue."

-- What `netOnce` finds: whether the container uses the current network namespace.
unfoldable pub host_net : Host → Config → Result ValidateError Bool
host_net host c =
    if not (contains_ns new_net c.namespaces)
    then ok true
    else if path_of new_net c.namespaces == ""
    then ok false
    else host.is_host_net_ns (path_of new_net c.namespaces)

abbrev pub check_host_net : Result ValidateError Bool → Option ValidateError
check_host_net (err e) = some e
check_host_net (ok hostnet) = refuse_if hostnet sysctl_in_host_net

unfoldable pub check_sysctl : Host → Config → String → Option ValidateError
check_sysctl host c s =
    if is_ipc_sysctl s
    then refuse_if (not (contains_ns new_ipc c.namespaces)) sysctl_in_host_ipc
    else if starts_with s "net."
    then check_host_net (host_net host c)
    else if contains_ns new_uts c.namespaces && (s == "kernel.domainname")
    then none
    else if contains_ns new_uts c.namespaces && (s == "kernel.hostname")
    then some sysctl_conflicts
    else some sysctl_not_separate

unfoldable pub check_sysctls : Host → Config → List String → Option ValidateError
check_sysctls host c [] = none
check_sysctls host c (s ∷ keys) = check_sysctl host c s then_check check_sysctls host c keys

unfoldable pub check_rdt : Host → IntelRdt → Option ValidateError
check_rdt host rdt =
    refuse_if (not host.cat_enabled && not host.mba_enabled) rdt_unsupported
    then_check refuse_if (not host.cat_enabled && not (rdt.l3_cache_schema == "")) cat_disabled
    then_check refuse_if (not host.mba_enabled && not (rdt.mem_bw_schema == "")) mba_disabled
    then_check refuse_if (host.cat_enabled && (rdt.l3_cache_schema == "")) cat_schema_missing
    then_check refuse_if (host.mba_enabled && (rdt.mem_bw_schema == "")) mba_schema_missing

unfoldable pub intel_rdt : Host → Config → Option ValidateError
intel_rdt host c = elim c.intel_rdt [ none ↦ none | some rdt ↦ check_rdt host rdt ]

unfoldable pub rootfs : Host → Config → Option ValidateError
rootfs host c = elim (host.resolved c.rootfs) [
  | err e ↦ some e
  | ok path ↦ refuse_if (not (host.cleaned c.rootfs == path)) not_absolute_or_symlink
]
