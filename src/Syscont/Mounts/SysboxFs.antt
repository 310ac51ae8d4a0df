-- ===== src/Syscont/Mounts/SysboxFs.antt =====
-- The mounts of sysbox-fs in a system container. The law of the function on slices is its documented
-- one: what is left are the members of the first slice that no member of the second compares to.
use sysbox_runc.Prelude.{
  ◌≡◌, refl, arith, Bool, true, false, not, ◌&&◌, List, String, map, any, ◌==◌, string_eq, nat_eq,
  contains, contains-append, All,
}
use sysbox_runc.Prelude.Text.{Text, runes, has_prefix}
use sysbox_runc.Syscont.Process.{
  Process, systemd_init, cfg_paths, syscont_rw_paths, syscont_systemd_rw_paths,
}
use sysbox_runc.Syscont.Process.Access.{contains-cfg_paths}
use sysbox_runc.Syscont.Mounts.{
  Mount, MountSpec, FsGlobals, sysboxfs_mounts, replace_first, cfg_sysboxfs_mounts,
}

-- The package's variables as they are when the program starts.
abbrev pub start : FsGlobals
start = record { sysbox_fs_dir = runes "/var/lib/sysboxfs"; fs_mounts = sysboxfs_mounts }

-- A mount over a file that sysbox-fs emulates, whose source is outside a directory.
unfoldable pub is_outside : Text → Mount → Bool
is_outside dir m =
    any (λ r. m.destination == r.destination) sysboxfs_mounts && not (has_prefix m.source dir)

module _ (mount_slice_remove : List Mount → List Mount → (Mount → Mount → Bool) → List Mount)
    (removes : (s t : List Mount) (cmp : Mount → Mount → Bool) (p : Mount → Bool)
      → any p (mount_slice_remove s t cmp) ≡ any (λ m. p m && not (any (cmp m) t)) s)
    (join_path : Text → Text → Text) where
  abbrev moved : Text → Text → List Mount
  moved mountpoint id =
      map
        (λ (m : Mount). record m {
          source = replace_first (runes "/var/lib/sysboxfs") (join_path mountpoint id) m.source;
        })
        sysboxfs_mounts

  sysboxfs_mounts_read_only :
      (mountpoint id : Text) (spec : MountSpec)
      → spec.read_only_root ≡ true
      → All
          (λ (m : Mount).
            contains
              (cfg_sysboxfs_mounts mount_slice_remove join_path mountpoint id start
                spec).1.readonly_paths
              m.destination
            ≡ true)
          sysboxfs_mounts
  unfolding cfg_sysboxfs_mounts sysboxfs_mounts
  sysboxfs_mounts_read_only mountpoint id spec read_only = (
    step "/proc/sys" refl,
    (
      step "/proc/swaps" refl,
      (
        step "/proc/uptime" refl,
        (
          step "/sys/kernel" refl,
          (step "/sys/devices/virtual" refl, (step "/sys/module/nf_conntrack/parameters" refl, tt)),
        ),
      ),
    ),
  )
    where
      step :
          (d : String)
          → contains (map (λ (m : Mount). m.destination) sysboxfs_mounts) d ≡ true
          → contains
              (cfg_sysboxfs_mounts mount_slice_remove join_path mountpoint id start
                spec).1.readonly_paths
              d
            ≡ true
      step d listed = ground (
        arith,
        contains-append spec.readonly_paths (map (λ (m : Mount). m.destination) sysboxfs_mounts) d,
      )

  -- The paths that are read-only in the end, in the mode for system containers.
  abbrev final_readonly_paths :
      (List String → List String → List String) → Text → Text → Process → MountSpec → List String
  final_readonly_paths slice_remove mountpoint id p spec =
      cfg_paths slice_remove syscont_systemd_rw_paths syscont_rw_paths p
        (cfg_sysboxfs_mounts mount_slice_remove join_path mountpoint id start spec).1.readonly_paths

  -- With a read-only root, in the mode for system containers, `/proc/uptime` is read-only in the end, but
  -- `/proc/sys` is not, and `/sys/kernel` is only where the process is not systemd.
  pub sysboxfs_readonly_paths :
      (slice_remove : List String → List String → List String)
      → ((xs ys : List String) (t : String)
          → contains (slice_remove xs ys) t ≡ (contains xs t && not (contains ys t)))
      → (mountpoint id : Text) (p : Process) (spec : MountSpec) → spec.read_only_root ≡ true
      → (contains (final_readonly_paths slice_remove mountpoint id p spec) "/proc/sys" ≡ false)
        × (contains (final_readonly_paths slice_remove mountpoint id p spec) "/sys/kernel"
            ≡ not (systemd_init p))
        × (contains (final_readonly_paths slice_remove mountpoint id p spec) "/proc/uptime" ≡ true)
  unfolding syscont_rw_paths syscont_systemd_rw_paths sysboxfs_mounts
  sysboxfs_readonly_paths slice_remove drops mountpoint id p spec read_only =
      let listed = sysboxfs_mounts_read_only mountpoint id spec read_only in
      let left =
        contains-cfg_paths slice_remove drops syscont_systemd_rw_paths syscont_rw_paths p
          (cfg_sysboxfs_mounts mount_slice_remove join_path mountpoint id start
            spec).1.readonly_paths in
      (
        ground (arith, left "/proc/sys"),
        ground (arith, left "/sys/kernel", listed.1.1.1.0),
        ground (arith, left "/proc/uptime", listed.1.1.0),
      )
