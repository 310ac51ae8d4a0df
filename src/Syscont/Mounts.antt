-- ===== src/Syscont/Mounts.antt =====
-- The mounts of a system container: `cfgSyscontMounts`, `cfgSyscontMountsReadOnly`,
-- `cfgSysboxfsMounts` and `cfgSystemdMounts` of libsysbox/syscont/spec.go. The functions on slices of
-- the third-party utils package are parameters, and so is `filepath.Join`. The lists of the package
-- that the code writes to are passed and returned.
pub mod Required
pub mod Systemd
pub mod SysboxFs
pub mod Manager
mod Scenarios
use text.Mathlib.Text.{starts_with}
use sysbox_runc.Prelude.{
  Bool, true, false, not, ◌&&◌, ◌||◌, Option, none, some, List, [], ◌∷◌, ◌++◌, String, map, keep,
  any, if◌then◌else◌, ◌==◌, string_eq,
}
use sysbox_runc.Prelude.Text.{Text, runes, strip_prefix}

-- `specs.Mount`
pub record Mount : Type 0 where
  pub destination : String
  pub source : Text
  pub type : String
  pub options : List String

-- The parts of the spec that are read or written; a device is its path.
pub record MountSpec : Type 0 where
  pub mounts : List Mount
  pub devices : List String
  pub read_only_root : Bool
  pub readonly_paths : List String

abbrev pub mount : String → String → String → List String → Mount
mount destination source type options = record {
  destination = destination;
  source = runes source;
  type = type;
  options = options;
}

unfoldable pub syscont_mounts : List Mount
syscont_mounts =
    mount "/sys" "sysfs" "sysfs" ("noexec" ∷ "nosuid" ∷ "nodev" ∷ [])
    ∷ mount "/sys/fs/cgroup" "cgroup" "cgroup" ("noexec" ∷ "nosuid" ∷ "nodev" ∷ [])
    ∷ mount "/proc" "proc" "proc" ("noexec" ∷ "nosuid" ∷ "nodev" ∷ [])
    ∷ mount "/dev" "tmpfs" "tmpfs" ("nosuid" ∷ "strictatime" ∷ "mode=755" ∷ "size=65536k" ∷ [])
    ∷ mount "/dev/kmsg" "/dev/null" "bind" ("rbind" ∷ "rprivate" ∷ [])
    ∷ []

-- The mounts under the directory of sysbox-fs, as they are before a container's directory is known.
unfoldable pub sysboxfs_mounts : List Mount
sysboxfs_mounts =
    mount "/proc/sys" "/var/lib/sysboxfs/proc/sys" "bind" ("rbind" ∷ "rprivate" ∷ [])
    ∷ mount "/proc/swaps" "/var/lib/sysboxfs/proc/swaps" "bind" ("rbind" ∷ "rprivate" ∷ [])
    ∷ mount "/proc/uptime" "/var/lib/sysboxfs/proc/uptime" "bind" ("rbind" ∷ "rprivate" ∷ [])
    ∷ mount "/sys/kernel" "/var/lib/sysboxfs/sys/kernel" "bind" ("rbind" ∷ "rprivate" ∷ [])
    ∷ mount "/sys/devices/virtual" "/var/lib/sysboxfs/sys/devices/virtual" "bind"
        ("rbind" ∷ "rprivate" ∷ [])
    ∷ mount "/sys/module/nf_conntrack/parameters"
        "/var/lib/sysboxfs/sys/module/nf_conntrack/parameters" "bind" ("rbind" ∷ "rprivate" ∷ [])
    ∷ []

unfoldable pub syscont_systemd_mounts : List Mount
syscont_systemd_mounts =
    mount "/run" "tmpfs" "tmpfs"
      ("rw" ∷ "rprivate" ∷ "nosuid" ∷ "nodev" ∷ "mode=755" ∷ "size=64m" ∷ [])
    ∷ mount "/run/lock" "tmpfs" "tmpfs"
        ("rw" ∷ "rprivate" ∷ "noexec" ∷ "nosuid" ∷ "nodev" ∷ "size=4m" ∷ [])
    ∷ []

unfoldable pub syscont_must_be_rw_mounts : List Mount
syscont_must_be_rw_mounts =
    mount "/run" "tmpfs" "tmpfs"
      ("rw" ∷ "rprivate" ∷ "noexec" ∷ "nosuid" ∷ "nodev" ∷ "mode=755" ∷ "size=64m" ∷ [])
    ∷ mount "/tmp" "tmpfs" "tmpfs"
        ("rw" ∷ "rprivate" ∷ "noexec" ∷ "nosuid" ∷ "nodev" ∷ "mode=755" ∷ "size=64m" ∷ [])
    ∷ []

abbrev pub same_destination : Mount → Mount → Bool
same_destination m1 m2 = m1.destination == m2.destination

abbrev pub below_destination : Mount → Mount → Bool
below_destination m1 m2 = starts_with m1.destination m2.destination

-- A mount of which only the destination is given.
abbrev pub at : String → Mount
at destination = mount destination "" "" []

-- The mounts that must be writable, added where nothing is mounted.
unfoldable pub add_rw_mounts : List Mount → List Mount → List Mount
add_rw_mounts [] mounts = mounts
add_rw_mounts (m ∷ ms) mounts =
    if any (λ p. p.destination == m.destination) mounts
    then add_rw_mounts ms mounts
    else add_rw_mounts ms (mounts ++ m ∷ [])

-- `strings.Replace(s, old, new, 1)`
unfoldable pub replace_first : Text → Text → Text → Text
replace_first old new [] = elim (strip_prefix old []) [ none ↦ [] | some rest ↦ new ++ rest ]
replace_first old new (c ∷ s) = elim (strip_prefix old (c ∷ s)) [
  | none ↦ c ∷ replace_first old new s
  | some rest ↦ new ++ rest
]

abbrev pub is_other_fs : Mount → Mount → Bool
is_other_fs m1 m2 = (m1.destination == m2.destination) && not (m1.type == "tmpfs")

abbrev pub is_own_tmpfs : Mount → Mount → Bool
is_own_tmpfs m1 m2 = (m1.destination == m2.destination) && (m2.type == "tmpfs")

module _ (mount_slice_remove : List Mount → List Mount → (Mount → Mount → Bool) → List Mount)
    (mount_slice_contains : List Mount → Mount → (Mount → Mount → Bool) → Bool)
    (string_slice_remove : List String → List String → List String) where
  -- `/sys` and what is below it gets or loses the right to be written.
  unfoldable pub adjust_option : Bool → Mount → Mount
  adjust_option relaxed m =
      if starts_with m.destination "/sys"
      then (if relaxed
          then record m { options = string_slice_remove m.options ("ro" ∷ []) ++ "rw" ∷ [] }
          else record m { options = string_slice_remove m.options ("rw" ∷ []) ++ "ro" ∷ [] })
      else m

  unfoldable pub cfg_syscont_mounts_read_only : Bool → MountSpec → MountSpec
  cfg_syscont_mounts_read_only relaxed spec = record spec {
    mounts =
        add_rw_mounts syscont_must_be_rw_mounts spec.mounts
        ++ map (adjust_option relaxed) syscont_mounts;
  }

  -- The devices that no mount of Sysbox conflicts with.
  unfoldable pub free_devices : List String → List String
  free_devices devices =
      keep (λ path. not (mount_slice_contains syscont_mounts (at path) same_destination)) devices

  unfoldable pub remove_conflicts : MountSpec → MountSpec
  remove_conflicts spec = record spec {
    mounts =
        mount_slice_remove
          (mount_slice_remove spec.mounts (at "/sys/fs/cgroup/" ∷ []) below_destination)
          syscont_mounts same_destination;
    devices = free_devices spec.devices;
  }

  unfoldable pub cfg_syscont_mounts : Bool → MountSpec → MountSpec
  cfg_syscont_mounts relaxed spec =
      if spec.read_only_root
      then cfg_syscont_mounts_read_only relaxed (remove_conflicts spec)
      else record (remove_conflicts spec) {
        mounts = (remove_conflicts spec).mounts ++ syscont_mounts;
      }

-- The directory of sysbox-fs that the package has in mind, and its mounts there.
pub record FsGlobals : Type 0 where
  pub sysbox_fs_dir : Text
  pub fs_mounts : List Mount

module _ (mount_slice_remove : List Mount → List Mount → (Mount → Mount → Bool) → List Mount)
    (join_path : Text → Text → Text) where
  unfoldable pub cfg_sysboxfs_mounts : Text → Text → FsGlobals → MountSpec → FsGlobals × MountSpec
  cfg_sysboxfs_mounts mountpoint id globals spec =
      let kept = mount_slice_remove spec.mounts globals.fs_mounts same_destination in
      let moved =
        map
          (λ (m : Mount). record m {
            source = replace_first globals.sysbox_fs_dir (join_path mountpoint id) m.source;
          })
          globals.fs_mounts in
      (
        record { sysbox_fs_dir = mountpoint; fs_mounts = moved },
        record spec {
          mounts = kept ++ moved;
          readonly_paths =
              if spec.read_only_root
              then spec.readonly_paths ++ map (λ (m : Mount). m.destination) moved
              else spec.readonly_paths;
        },
      )

  -- The package's list of mounts for systemd, and the spec.
  unfoldable pub cfg_systemd_mounts : List Mount → MountSpec → List Mount × MountSpec
  cfg_systemd_mounts systemd_mounts spec =
      let kept = mount_slice_remove spec.mounts systemd_mounts is_other_fs in
      let wanted = mount_slice_remove systemd_mounts kept is_own_tmpfs in
      (wanted, record spec { mounts = kept ++ wanted })
