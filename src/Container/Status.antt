-- ===== src/Container/Status.antt =====
-- `status`, `runType` and `isPaused`: libcontainer/state_linux.go and container_linux.go.
use sysbox_runc.Prelude.{
  ℕ, Bool, true, false, not, ◌||◌, Option, none, some, if◌then◌else◌, ◌==◌, nat_eq,
}
use sysbox_runc.Container.Session.{
  Status, created, running, paused, stopped, ContainerState, stopped_state, running_state,
  created_state, paused_state, restored_state, loaded_state, ProcessState, zombie, dead, other,
  Stat, Error, Host, M, get, pure, ◌>>=◌, ask_stat, ask_exec_fifo, ask_frozen,
}

unfoldable pub status : ContainerState → Status
status stopped_state = stopped
status running_state = running
status created_state = created
status paused_state = paused
status (restored_state _) = running
status (loaded_state s) = s

abbrev pub has_ended : ProcessState → Bool
has_ended zombie = true
has_ended dead = true
has_ended other = false

-- Whether the init process that the container knows is gone, replaced or ended.
unfoldable pub is_gone : ℕ → Option Stat → Bool
is_gone start_time none = true
is_gone start_time (some stat) = not (stat.start_time == start_time) || has_ended stat.state

module _ (host : Host) where
  unfoldable pub run_type_of_init : ℕ → ℕ → M Status
  run_type_of_init pid start_time = do
    stat ← ask_stat host pid
    if is_gone start_time stat
        then pure stopped
        else (do fifo ← ask_exec_fifo host; if fifo then pure created else pure running)

  unfoldable pub run_type : M Status
  run_type = do
    c ← get
    elim c.init_process [
      | none ↦ pure stopped
      | some pid ↦ run_type_of_init pid c.init_process_start_time
    ]

  unfoldable pub is_paused : M (Option Error × Bool)
  is_paused = ask_frozen host
