-- ===== src/Container/Destroy.antt =====
-- `destroy` of each state and of the container, in libcontainer/state_linux.go.
pub mod Laws
pub mod Outcome
use sysbox_runc.Prelude.{
  ℕ, zero, suc, Bool, true, false, not, ◌||◌, Option, none, some, String, Result, ok, err,
  if◌then◌else◌, ◌==◌, string_eq,
}
use sysbox_runc.Configs.Namespaces.{new_pid, contains_ns, path_of}
use sysbox_runc.Container.Session.{
  Status, created, running, paused, stopped, ContainerState, stopped_state, running_state,
  created_state, paused_state, restored_state, loaded_state, Container, Error, generic, out_of_fuel,
  container_not_stopped, container_paused, Host, M, get, pure, set_state, clear_init_process, try,
  first_error, ◌>>=◌, ◌>>◌, Action, signal_all_processes, cgroup_destroy, intel_rdt_destroy,
  remove_root, run_poststop_hooks, signal_init, thaw, stat_checkpoint, perform,
}
use sysbox_runc.Container.Status.{status, run_type}
use sysbox_runc.Container.Transition.{current_status, refresh_state}

-- `!Namespaces.Contains(NEWPID) || Namespaces.PathOf(NEWPID) != ""`
unfoldable pub shares_pid_namespace : Container → Bool
shares_pid_namespace c =
    not (contains_ns new_pid c.namespaces) || not (path_of new_pid c.namespaces == "")

module _ (host : Host) where
  unfoldable pub hooks_after_status : Result Error Status → M (Option Error)
  hooks_after_status (err e) = pure (some e)
  hooks_after_status (ok _) = perform host run_poststop_hooks

  unfoldable pub run_poststop : M (Option Error)
  run_poststop = do
    c ← get
    if c.has_hooks then (current_status host >>= hooks_after_status) else pure none

  -- An error of `signalAllProcesses` is only logged.
  unfoldable pub destroy_processes : M (Unit {0})
  destroy_processes = do
    c ← get
    if shares_pid_namespace c then (perform host signal_all_processes >> pure tt) else pure tt

  unfoldable pub destroy_intel_rdt : M (Option Error)
  destroy_intel_rdt = do
    c ← get
    if c.has_intel_rdt then perform host intel_rdt_destroy else pure none

  -- `destroy(c)`: every step is made, and the first error is returned.
  unfoldable pub destroy_container : M (Option Error)
  destroy_container = do
    destroy_processes
    cgroups ← perform host cgroup_destroy
    rdt ← destroy_intel_rdt
    root ← perform host remove_root
    clear_init_process
    hooks ← run_poststop
    set_state stopped_state
    pure (first_error (first_error (first_error cgroups rdt) root) hooks)

  unfoldable pub destroy_running : M (Option Error)
  destroy_running = do
    t ← run_type host
    elim t [ running ↦ pure (some (generic container_not_stopped)) | _ ↦ destroy_container ]

  -- The error of the signal is dropped.
  unfoldable pub destroy_created : M (Option Error)
  destroy_created = do perform host signal_init; destroy_container

  unfoldable pub thaw_and_destroy : M (Option Error)
  thaw_and_destroy = try (perform host thaw) destroy_container

  unfoldable pub destroy_paused : M (Option Error)
  destroy_paused = do
    t ← run_type host
    elim t [
      | running ↦ pure (some (generic container_paused))
      | created ↦ pure (some (generic container_paused))
      | _ ↦ thaw_and_destroy
    ]

  unfoldable pub destroy_checked : Option Error → M (Option Error)
  destroy_checked none = destroy_container
  destroy_checked (some e) = if host.not_exist e then destroy_container else pure (some e)

  unfoldable pub destroy_restored : M (Option Error)
  destroy_restored = perform host stat_checkpoint >>= destroy_checked

  -- A loaded state looks up the real one and calls its `destroy`: the fuel bounds these calls.
  unfoldable pub state_destroy_from : ℕ → ContainerState → M (Option Error)
  state_destroy_from fuel stopped_state = destroy_container
  state_destroy_from fuel running_state = destroy_running
  state_destroy_from fuel created_state = destroy_created
  state_destroy_from fuel paused_state = destroy_paused
  state_destroy_from fuel (restored_state _) = destroy_restored
  state_destroy_from zero (loaded_state _) = pure (some out_of_fuel)
  state_destroy_from (suc fuel) (loaded_state _) =
      try (refresh_state host) (get >>= λ c. state_destroy_from fuel c.state)

  -- `c.state.destroy()`
  unfoldable pub state_destroy : M (Option Error)
  state_destroy = do c ← get; state_destroy_from 1 c.state
