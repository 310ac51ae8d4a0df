-- ===== src/Container/Scenarios.antt =====
-- Concrete hosts and containers, on which the operations of a container run.
use sysbox_runc.Prelude.{
  ◌≡◌, if◌then◌else◌, ◌≢◌, refl, ◌++◌, Bool, true, false, Option, none, some, [], ◌∷◌,
}
use sysbox_runc.Configs.Namespaces.{new_pid, contains_ns, index, path_of}
use sysbox_runc.Container.Session.{
  running, ContainerState, stopped_state, running_state, created_state, paused_state, loaded_state,
  ShiftType, no_shift, chown, other, Stat, Host, Session, cgroup_destroy, remove_root,
  run_poststop_hooks, freeze, revert_rootfs_chown, perform, ask_stat, ask_exec_fifo, ask_frozen,
}
use sysbox_runc.Container.Status.{status, run_type, run_type_of_init, is_gone, is_paused}
use sysbox_runc.Container.Transition.{
  transition, transition_from, stop_running, refresh_state, refresh_paused, refresh_running,
  current_status,
}
use sysbox_runc.Container.Transition.Edges.{Edge, transition-Edge}
use sysbox_runc.Container.Destroy.{
  shares_pid_namespace, hooks_after_status, run_poststop, destroy_processes, destroy_intel_rdt,
  destroy_container, destroy_running, state_destroy_from, state_destroy,
}
use sysbox_runc.Container.Destroy.Laws.{actions, hooks_run, torn_down, destroy_container-actions}
use sysbox_runc.Container.Destroy.Outcome.{state_destroy_fuel}
use sysbox_runc.Container.Lifecycle.{
  pause, is_chown, is_chowned_in_place, revert_chown, unregister, unregister_fs, teardown, destroy,
}
use sysbox_runc.Container.Lifecycle.Laws.{pause_ends_at_revert}
use sysbox_runc.Container.Lifecycle.Destroying.{destroy_stops}

-- An init process that started at 7.
abbrev alive : Stat
alive = record { state = other; start_time = 7 }

-- A host on which every action succeeds.
abbrev calm : Option Stat → Bool → Host
calm init frozen = record {
  act = λ calls a. none;
  process_stat = λ calls pid. init;
  has_exec_fifo = λ calls. false;
  frozen = λ calls. (none, frozen);
  not_exist = λ e. false;
}

-- A host on which the cgroups cannot be destroyed and no process is left.
abbrev broken : Host
broken = record {
  act = λ calls a. elim a [ cgroup_destroy ↦ some "busy" | _ ↦ none ];
  process_stat = λ calls pid. none;
  has_exec_fifo = λ calls. false;
  frozen = λ calls. (none, false);
  not_exist = λ e. false;
}

abbrev session : ContainerState → ShiftType → Session
session state shift = record {
  container = record {
    state = state;
    init_process = some 42;
    init_process_start_time = 7;
    namespaces = record { type = new_pid; path = "" } ∷ [];
    has_hooks = true;
    has_intel_rdt = false;
    rootfs_uid_shift_type = shift;
    rootfs_cloned = false;
    sysbox_mgr_enabled = false;
    sysbox_fs_enabled = false;
  };
  calls = [];
}

abbrev up : Session
up = session running_state no_shift

abbrev chowned : Session
chowned = session running_state chown

transition-Edge_example :
    Edge created_state
      (transition (calm none false) paused_state (session created_state no_shift)).1.container.state
unfolding transition transition_from
transition-Edge_example =
    transition-Edge (calm none false) paused_state (session created_state no_shift) refl

destroy_container-actions_example :
    actions (destroy_container broken up).1.calls
    ≡ (if hooks_run broken (torn_down broken up) then run_poststop_hooks ∷ [] else [])
      ++ remove_root ∷ cgroup_destroy ∷ []
unfolding shares_pid_namespace contains_ns index path_of
destroy_container-actions_example = destroy_container-actions broken up

state_destroy_fuel_example :
    state_destroy_from
      (calm none false)
      4
      (loaded_state running)
      (session (loaded_state running) no_shift)
    ≡ state_destroy (calm none false) (session (loaded_state running) no_shift)
state_destroy_fuel_example =
    state_destroy_fuel (calm none false) 3 (session (loaded_state running) no_shift)

-- Everything that a destroy of a container whose processes have ended runs through.
destroy_stops_example :
    ((destroy (calm none false) up).1.container.state ≡ stopped_state)
    × ((destroy (calm none false) up).1.container.init_process ≡ none)
destroy_stops_example = destroy_stops (calm none false) up (
    unfold destroy revert_chown is_chown state_destroy state_destroy_from destroy_running run_type
      run_type_of_init is_gone ask_stat destroy_container destroy_processes shares_pid_namespace
      contains_ns index path_of destroy_intel_rdt perform run_poststop hooks_after_status
      current_status refresh_state refresh_paused refresh_running is_paused ask_frozen transition
      transition_from stop_running status unregister_fs unregister teardown in
    refl)

pause_ends_at_revert_example :
    ((pause (calm (some alive) false) chowned).0 ≡ none)
    × ((pause (calm (some alive) false) chowned).1.container.state ≢ paused_state)
    × (actions (pause (calm (some alive) false) chowned).1.calls
        ≡ revert_rootfs_chown ∷ freeze ∷ [])
pause_ends_at_revert_example =
    pause_ends_at_revert (calm (some alive) false) chowned
      (unfold is_chowned_in_place is_chown in refl)
      (unfold run_type run_type_of_init is_gone ask_stat ask_exec_fifo current_status refresh_state
          refresh_paused refresh_running is_paused ask_frozen transition transition_from status in
        refl)
      (unfold perform in refl) (unfold perform in refl)
