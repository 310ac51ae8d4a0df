-- ===== src/Container/Transition/Edges.antt =====
-- The diagram of the states of a container.
use sysbox_runc.Prelude.{◌≡◌, refl, ◌⊎◌, none, some, String, arith}
use sysbox_runc.Container.Session.{
  Status, created, running, stopped, ContainerState, stopped_state, running_state, created_state,
  paused_state, restored_state, loaded_state, Session, Error, Host, ask_stat, ask_exec_fifo,
}
use sysbox_runc.Container.Status.{run_type, run_type_of_init}
use sysbox_runc.Container.Transition.{transition, transition_from, stop_running}

pub data Edge : ContainerState → ContainerState → Type 0 where
  stay : {s : ContainerState} → Edge s s
  start : Edge created_state running_state
  pause_created : Edge created_state paused_state
  stop_created : Edge created_state stopped_state
  pause_running : Edge running_state paused_state
  stop : Edge running_state stopped_state
  resume : Edge paused_state running_state
  stop_paused : Edge paused_state stopped_state
  restart : Edge stopped_state running_state
  restore : {d : String} → Edge stopped_state (restored_state d)
  load : {l : Status} {s : ContainerState} → Edge (loaded_state l) s

ruleset edges = (
  stay, start, pause_created, stop_created, pause_running, stop, resume, stop_paused, restart,
  restore, load,
)

module _ (host : Host) where
  -- A run type asks the host and leaves the container as it is.
  pub run_type-container : (s : Session) → (run_type host s).1.container ≡ s.container
  unfolding run_type run_type_of_init ask_stat ask_exec_fifo
  run_type-container s = ground arith

  pub run_type_cases :
      (s : Session)
      → ((run_type host s).0 ≡ stopped)
        ⊎ ((run_type host s).0 ≡ created)
        ⊎ ((run_type host s).0 ≡ running)
  unfolding run_type run_type_of_init ask_stat ask_exec_fifo
  run_type_cases s = ground arith

  -- A transition that is refused leaves the container as it was.
  pub transition_error_unchanged :
      (to : ContainerState) (s : Session) {e : Error}
      → (transition host to s).0 ≡ some e
      → (transition host to s).1.container ≡ s.container
  unfolding transition transition_from stop_running
  transition_error_unchanged to s h = ground (arith, run_type-container s)

  transition_from-Edge :
      (from to : ContainerState) (s : Session)
      → (transition_from host from to s).0 ≡ none
      → s.container.state ≡ from
      → Edge from (transition_from host from to s).1.container.state
  unfolding transition_from stop_running
  transition_from-Edge from to s h = grind (arith, edges)

  -- A transition that succeeds stays in its state or follows an edge of the diagram.
  pub transition-Edge :
      (to : ContainerState) (s : Session)
      → (transition host to s).0 ≡ none
      → Edge s.container.state (transition host to s).1.container.state
  unfolding transition
  transition-Edge to s h = transition_from-Edge s.container.state to s h refl
