-- ===== src/Container/Lifecycle.antt =====
-- `Pause`, `Resume` and `Destroy` of libcontainer/container_linux.go.
pub mod Laws
pub mod Destroying
use sysbox_runc.Prelude.{
  Bool, true, false, not, ◌&&◌, Option, none, some, Result, ok, err, if◌then◌else◌,
}
use sysbox_runc.Container.Session.{
  Status, created, running, pausing, paused, stopped, ContainerState, running_state, paused_state,
  ShiftType, no_shift, chown, shiftfs, id_mapped, Container, Error, generic, container_not_running,
  container_not_paused, Host, M, get, pure, try, first_error, ◌>>=◌, ◌>>◌, signal_init, freeze,
  thaw, chown_rootfs, revert_rootfs_chown, revert_cloned_rootfs_chown, mgr_pause, mgr_resume,
  mgr_unregister, fs_unregister, get_mounts, teardown_shiftfs_mark, perform,
}
use sysbox_runc.Container.Transition.{current_status, transition}
use sysbox_runc.Container.Destroy.{state_destroy}

unfoldable pub is_chown : ShiftType → Bool
is_chown chown = true
is_chown _ = false

-- `!c.config.RootfsCloned && c.config.RootfsUidShiftType == sh.Chown`
unfoldable pub is_chowned_in_place : Container → Bool
is_chowned_in_place c = not c.rootfs_cloned && is_chown c.rootfs_uid_shift_type

module _ (host : Host) where
  unfoldable pub finish_pause : M (Option Error)
  finish_pause = do
    c ← get
    try (if c.sysbox_mgr_enabled then perform host mgr_pause else pure none)
        (transition host paused_state)

  -- `if err := c.revertRootfsChown(); err == nil { return err }`
  unfoldable pub revert_then_pause : M (Option Error)
  revert_then_pause = do
    reverted ← perform host revert_rootfs_chown
    elim reverted [ none ↦ pure none | some _ ↦ finish_pause ]

  unfoldable pub pause_frozen : M (Option Error)
  pause_frozen = do c ← get; if is_chowned_in_place c then revert_then_pause else finish_pause

  unfoldable pub pause_at : Result Error Status → M (Option Error)
  pause_at (err e) = pure (some e)
  pause_at (ok running) = try (perform host freeze) pause_frozen
  pause_at (ok created) = try (perform host freeze) pause_frozen
  pause_at (ok _) = pure (some (generic container_not_running))

  unfoldable pub pause : M (Option Error)
  pause = current_status host >>= pause_at

  unfoldable pub resume_paused : M (Option Error)
  resume_paused = do
    c ← get
    try (if is_chowned_in_place c then perform host chown_rootfs else pure none) (
        try (if c.sysbox_mgr_enabled then perform host mgr_resume else pure none)
          (try (perform host thaw) (transition host running_state)))

  unfoldable pub resume_at : Result Error Status → M (Option Error)
  resume_at (err e) = pure (some e)
  resume_at (ok paused) = resume_paused
  resume_at (ok _) = pure (some (generic container_not_paused))

  unfoldable pub resume : M (Option Error)
  resume = current_status host >>= resume_at

  unfoldable pub revert_chown : M (Option Error)
  revert_chown = do
    c ← get
    if is_chown c.rootfs_uid_shift_type
        then (if c.rootfs_cloned
            then perform host revert_cloned_rootfs_chown
            else perform host revert_rootfs_chown)
        else pure none

  -- Without sysbox-mgr. The `err` that the teardown sets is a new one, which is dropped.
  unfoldable pub teardown : Option Error → M (Option Error)
  teardown failed = do
    mounts ← perform host get_mounts
    elim mounts [
      | some e ↦ pure (some e)
      | none ↦ perform host teardown_shiftfs_mark >> pure failed
    ]

  unfoldable pub unregister : Option Error → M (Option Error)
  unregister failed = do
    c ← get
    if c.sysbox_mgr_enabled
        then (perform host mgr_unregister >>= λ e. pure (first_error failed e))
        else teardown failed

  unfoldable pub unregister_fs : M (Option Error)
  unregister_fs = do c ← get; if c.sysbox_fs_enabled then perform host fs_unregister else pure none

  unfoldable pub destroy : M (Option Error)
  destroy = do
    reverted ← revert_chown
    state ← state_destroy host
    fs ← unregister_fs
    unregister (first_error (first_error reverted state) fs)
