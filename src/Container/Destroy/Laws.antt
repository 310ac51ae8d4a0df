-- ===== src/Container/Destroy/Laws.antt =====
-- What `destroy` leaves behind, and which steps it makes.
use sysbox_runc.Prelude.{
  ◌≡◌, refl, ap, ◌∙◌, ◌&&◌, Bool, true, false, none, List, [], ◌∷◌, ◌++◌, ok, err, arith,
  if◌then◌else◌,
}
use sysbox_runc.Container.Session.{
  ContainerState, stopped_state, paused_state, Session, Host, ask_stat, ask_exec_fifo, ask_frozen,
  perform, clear_init_process, Call, query, action, Action, signal_all_processes, cgroup_destroy,
  intel_rdt_destroy, remove_root, run_poststop_hooks,
}
use sysbox_runc.Container.Status.{run_type, run_type_of_init, is_paused}
use sysbox_runc.Container.Transition.{
  transition, refresh_state, current_status, transition_from, stop_running, refresh_paused,
  refresh_running,
}
use sysbox_runc.Container.Transition.Edges.{run_type-container}
use sysbox_runc.Container.Destroy.{
  shares_pid_namespace, hooks_after_status, run_poststop, destroy_processes, destroy_intel_rdt,
  destroy_container,
}

-- The actions among the calls, the last one first.
abbrev pub actions : List Call → List Action
actions [] = []
actions (query _ ∷ calls) = actions calls
actions (action a ∷ calls) = a ∷ actions calls

module _ (host : Host) where
  pub run_type-actions : (s : Session) → actions (run_type host s).1.calls ≡ actions s.calls
  unfolding run_type run_type_of_init ask_stat ask_exec_fifo
  run_type-actions s = ground arith

  transition-actions :
      (to : ContainerState) (s : Session) → actions (transition host to s).1.calls ≡ actions s.calls
  unfolding transition transition_from stop_running
  transition-actions to s = ground (arith, run_type-actions s)

  refresh_running-actions :
      (s : Session) → actions (refresh_running host s).1.calls ≡ actions s.calls
  unfolding refresh_running
  refresh_running-actions s = transition-actions _ (run_type host s).1 ∙ run_type-actions s

  refresh_state-actions : (s : Session) → actions (refresh_state host s).1.calls ≡ actions s.calls
  unfolding refresh_state refresh_paused is_paused ask_frozen
  refresh_state-actions s = ground (
    arith,
    transition-actions paused_state (ask_frozen host s).1,
    refresh_running-actions (ask_frozen host s).1,
  )

  pub current_status-actions :
      (s : Session) → actions (current_status host s).1.calls ≡ actions s.calls
  unfolding current_status
  current_status-actions s = ground (arith, refresh_state-actions s)

  -- Only the state changes: the init process stays as it was.
  transition-init_process :
      (to : ContainerState) (s : Session)
      → (transition host to s).1.container.init_process ≡ s.container.init_process
  unfolding transition transition_from stop_running
  transition-init_process to s = ground (arith, run_type-container host s)

  refresh_running-init_process :
      (s : Session) → (refresh_running host s).1.container.init_process ≡ s.container.init_process
  unfolding refresh_running
  refresh_running-init_process s =
      transition-init_process _ (run_type host s).1
      ∙ ap (λ c. c.init_process) (run_type-container host s)

  refresh_state-init_process :
      (s : Session) → (refresh_state host s).1.container.init_process ≡ s.container.init_process
  unfolding refresh_state refresh_paused is_paused ask_frozen
  refresh_state-init_process s = ground (
    arith,
    transition-init_process paused_state (ask_frozen host s).1,
    refresh_running-init_process (ask_frozen host s).1,
  )

  run_poststop-init_process :
      (s : Session) → (run_poststop host s).1.container.init_process ≡ s.container.init_process
  unfolding run_poststop hooks_after_status current_status perform
  run_poststop-init_process s = ground (arith, refresh_state-init_process s)

  -- Whether the poststop hooks are run: they are there, and the status can be told.
  pub hooks_run : Session → Bool
  hooks_run s =
      s.container.has_hooks && (elim (current_status host s).0 [ ok _ ↦ true | err _ ↦ false ])

  run_poststop-actions :
      (s : Session)
      → actions (run_poststop host s).1.calls
        ≡ (if hooks_run s then run_poststop_hooks ∷ actions s.calls else actions s.calls)
  unfolding run_poststop hooks_after_status perform hooks_run
  run_poststop-actions s = ground (arith, current_status-actions s)

  destroy_processes_lem :
      (s : Session)
      → ((destroy_processes host s).1.container ≡ s.container)
        × (actions (destroy_processes host s).1.calls ≡ (
            if shares_pid_namespace s.container
            then signal_all_processes ∷ actions s.calls
            else actions s.calls))
  unfolding destroy_processes perform
  destroy_processes_lem s = ground arith

  destroy_intel_rdt_lem :
      (s : Session)
      → ((destroy_intel_rdt host s).1.container ≡ s.container)
        × (actions (destroy_intel_rdt host s).1.calls ≡ (
            if s.container.has_intel_rdt
            then intel_rdt_destroy ∷ actions s.calls
            else actions s.calls))
  unfolding destroy_intel_rdt perform
  destroy_intel_rdt_lem s = ground arith

  -- The session before the hooks run.
  pub torn_down : Session → Session
  torn_down s =
      let s1 = (destroy_processes host s).1 in
      let s2 = (perform host cgroup_destroy s1).1 in
      let s3 = (destroy_intel_rdt host s2).1 in
      let s4 = (perform host remove_root s3).1 in (clear_init_process s4).1

  torn_down_lem :
      (s : Session)
      → ((torn_down s).container ≡ record (s.container) { init_process = none })
        × (actions (torn_down s).calls
            ≡ remove_root
              ∷ ((if s.container.has_intel_rdt then intel_rdt_destroy ∷ [] else [])
                  ++ (cgroup_destroy
                      ∷ ((if shares_pid_namespace s.container
                            then signal_all_processes ∷ []
                            else [])
                          ++ actions s.calls))))
  unfolding torn_down perform
  torn_down_lem s =
      let s1 = (destroy_processes host s).1 in
      ground
        (arith, destroy_processes_lem s, destroy_intel_rdt_lem (perform host cgroup_destroy s1).1)

  -- `destroy` ends in the stopped state with no init process, whatever fails on the way.
  pub destroy_container_stops :
      (s : Session)
      → ((destroy_container host s).1.container.state ≡ stopped_state)
        × ((destroy_container host s).1.container.init_process ≡ none)
  unfolding destroy_container torn_down
  destroy_container_stops s =
      (refl, run_poststop-init_process (torn_down s) ∙ ap (λ c. c.init_process) (torn_down_lem s).0)

  destroy_container-calls :
      (s : Session) → (destroy_container host s).1.calls ≡ (run_poststop host (torn_down s)).1.calls
  unfolding destroy_container torn_down
  destroy_container-calls s = refl

  -- `destroy` makes all its steps in their order, whatever fails on the way, but for the hooks, which
  -- need a status that can be told; the list of the steps begins with the last one.
  pub destroy_container-actions :
      (s : Session)
      → actions (destroy_container host s).1.calls
        ≡ (if hooks_run (torn_down s) then run_poststop_hooks ∷ [] else [])
          ++ (remove_root
              ∷ ((if s.container.has_intel_rdt then intel_rdt_destroy ∷ [] else [])
                  ++ (cgroup_destroy
                      ∷ ((if shares_pid_namespace s.container
                            then signal_all_processes ∷ []
                            else [])
                          ++ actions s.calls))))
  unfolding hooks_run
  destroy_container-actions s =
      ap actions (destroy_container-calls s)
      ∙ ground (arith, run_poststop-actions (torn_down s), torn_down_lem s)

  pub run_poststop_of_none :
      (s : Session) → s.container.has_hooks ≡ false → (run_poststop host s).0 ≡ none
  unfolding run_poststop
  run_poststop_of_none s h = ground arith
