-- ===== src/Container/Transition.antt =====
-- `transition` of each state in libcontainer/state_linux.go, and `refreshState` and `currentStatus`
-- of libcontainer/container_linux.go.
pub mod Edges
pub mod Accuracy
use sysbox_runc.Prelude.{
  Bool, true, false, Option, none, some, String, Result, ok, err, if◌then◌else◌,
}
use sysbox_runc.Container.Session.{
  Status, created, running, paused, stopped, ContainerState, stopped_state, running_state,
  created_state, paused_state, restored_state, loaded_state, Error, state_transition, generic,
  container_not_stopped, Host, M, get, pure, set_state, ◌>>=◌, ◌>>◌,
}
use sysbox_runc.Container.Status.{status, run_type, is_paused}

-- `b.c.state = s; return nil`
abbrev pub move_to : ContainerState → M (Option Error)
move_to state = set_state state >> pure none

abbrev pub refuse : ContainerState → ContainerState → M (Option Error)
refuse from to = pure (some (state_transition (status from) (status to)))

-- The `switch` of `refreshState`.
abbrev pub state_of_run_type : Status → ContainerState
state_of_run_type created = created_state
state_of_run_type running = running_state
state_of_run_type _ = stopped_state

module _ (host : Host) where
  unfoldable pub stop_running : ContainerState → M (Option Error)
  stop_running to = do
    t ← run_type host
    elim t [ running ↦ pure (some (generic container_not_stopped)) | _ ↦ move_to to ]

  -- `from` is the receiver, `to` the argument.
  unfoldable pub transition_from : ContainerState → ContainerState → M (Option Error)
  transition_from stopped_state running_state = move_to running_state
  transition_from stopped_state (restored_state d) = move_to (restored_state d)
  transition_from stopped_state stopped_state = pure none
  transition_from running_state stopped_state = stop_running stopped_state
  transition_from running_state paused_state = move_to paused_state
  transition_from running_state running_state = pure none
  transition_from created_state running_state = move_to running_state
  transition_from created_state paused_state = move_to paused_state
  transition_from created_state stopped_state = move_to stopped_state
  transition_from created_state created_state = pure none
  transition_from paused_state running_state = move_to running_state
  transition_from paused_state stopped_state = move_to stopped_state
  transition_from paused_state paused_state = pure none
  transition_from (restored_state _) stopped_state = pure none
  transition_from (restored_state _) running_state = pure none
  transition_from (loaded_state _) to = move_to to
  transition_from from to = refuse from to

  -- `c.state.transition(to)`
  unfoldable pub transition : ContainerState → M (Option Error)
  transition to = do c ← get; transition_from c.state to

  unfoldable pub refresh_running : M (Option Error)
  refresh_running = do t ← run_type host; transition (state_of_run_type t)

  unfoldable pub refresh_paused : Option Error × Bool → M (Option Error)
  refresh_paused (some e, _) = pure (some e)
  refresh_paused (none, paused_now) =
      if paused_now then transition paused_state else refresh_running

  unfoldable pub refresh_state : M (Option Error)
  refresh_state = do answer ← is_paused host; refresh_paused answer

  unfoldable pub current_status : M (Result Error Status)
  current_status = do
    failed ← refresh_state
    c ← get
    elim failed [ none ↦ pure (ok (status c.state)) | some e ↦ pure (err e) ]
