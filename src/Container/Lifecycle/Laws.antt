-- ===== src/Container/Lifecycle/Laws.antt =====
-- What `Pause`, `Resume` and `Destroy` leave behind.
use sysbox_runc.Prelude.{
  ◌≡◌, ◌≢◌, refl, ap, ◌∙◌, Bool, true, false, Option, none, some, ◌∷◌, Result, ok, err, arith,
  if◌then◌else◌,
}
use sysbox_runc.Container.Session.{
  Status, created, running, pausing, paused, stopped, ContainerState, running_state, paused_state,
  Session, Error, Host, generic, ask_frozen, perform, try, pure, container_not_paused, freeze, thaw,
  revert_rootfs_chown, mgr_pause, chown_rootfs, mgr_resume,
}
use sysbox_runc.Container.Status.{status, run_type, is_paused}
use sysbox_runc.Container.Transition.{
  transition, transition_from, stop_running, refresh_state, refresh_paused, refresh_running,
  current_status, state_of_run_type,
}
use sysbox_runc.Container.Transition.Edges.{run_type-container}
use sysbox_runc.Container.Transition.Accuracy.{is_restored, transition_reaches}
use sysbox_runc.Container.Destroy.Laws.{actions, current_status-actions}
use sysbox_runc.Container.Lifecycle.{
  is_chowned_in_place, finish_pause, revert_then_pause, pause_frozen, pause_at, pause,
  resume_paused, resume_at, resume,
}

module _ (host : Host) where
  transition_frame :
      (to : ContainerState) (s : Session)
      → (transition host to s).1.container
        ≡ record (s.container) { state = (transition host to s).1.container.state }
  unfolding transition transition_from stop_running
  transition_frame to s = ground (arith, run_type-container host s)

  refresh_running_frame :
      (s : Session)
      → (refresh_running host s).1.container
        ≡ record (s.container) { state = (refresh_running host s).1.container.state }
  unfolding refresh_running
  refresh_running_frame s =
      let (t, s1) = run_type host s in
      ground (arith, transition_frame (state_of_run_type t) s1, run_type-container host s)

  -- Asking for the status changes nothing of the container but its state.
  pub current_status_frame :
      (s : Session)
      → (current_status host s).1.container
        ≡ record (s.container) { state = (current_status host s).1.container.state }
  unfolding current_status refresh_state refresh_paused is_paused ask_frozen
  current_status_frame s =
      let s1 = (ask_frozen host s).1 in
      ground (arith, transition_frame paused_state s1, refresh_running_frame s1)

  current_status-status :
      (s : Session) {st : Status}
      → (current_status host s).0 ≡ ok st
      → status (current_status host s).1.container.state ≡ st
  unfolding current_status
  current_status-status s h = ground arith

  transition-paused :
      (s : Session)
      → (transition host paused_state s).0 ≡ none
      → (transition host paused_state s).1.container.state ≡ paused_state
  unfolding transition transition_from
  transition-paused s h = ground arith

  finish_pause_lem :
      (s : Session)
      → (finish_pause host s).0 ≡ none
      → (finish_pause host s).1.container.state ≡ paused_state
  unfolding finish_pause perform
  finish_pause_lem s h =
      ground (arith, transition-paused s, transition-paused (perform host mgr_pause s).1)

  chowned_frame :
      (s : Session)
      → is_chowned_in_place (current_status host s).1.container ≡ is_chowned_in_place s.container
  unfolding is_chowned_in_place
  chowned_frame s = rw (current_status_frame s)

  pause_frozen_lem :
      (s : Session)
      → is_chowned_in_place s.container ≡ false
      → (pause_frozen host s).0 ≡ none
      → (pause_frozen host s).1.container.state ≡ paused_state
  unfolding pause_frozen
  pause_frozen_lem s free done = ground (arith, finish_pause_lem s)

  freeze_lem :
      (s : Session)
      → is_chowned_in_place s.container ≡ false
      → (try (perform host freeze) (pause_frozen host) s).0 ≡ none
      → (try (perform host freeze) (pause_frozen host) s).1.container.state ≡ paused_state
  unfolding perform
  freeze_lem s free done = ground (arith, pause_frozen_lem (perform host freeze s).1)

  pause_at_lem :
      (answer : Result Error Status) (s : Session)
      → is_chowned_in_place s.container ≡ false
      → (pause_at host answer s).0 ≡ none
      → (pause_at host answer s).1.container.state ≡ paused_state
  unfolding pause_at
  pause_at_lem (ok running) s free done = freeze_lem s free done
  pause_at_lem (ok created) s free done = freeze_lem s free done
  pause_at_lem (ok pausing) s free done = cc
  pause_at_lem (ok paused) s free done = cc
  pause_at_lem (ok stopped) s free done = cc
  pause_at_lem (err e) s free done = cc

  -- A pause that succeeds leaves the container paused, unless its rootfs was chowned in place.
  pub pause-paused :
      (s : Session)
      → is_chowned_in_place s.container ≡ false
      → (pause host s).0 ≡ none
      → (pause host s).1.container.state ≡ paused_state
  unfolding pause
  pause-paused s free done =
      pause_at_lem (current_status host s).0 (current_status host s).1 (chowned_frame s ∙ free) done

  -- The session after the freeze and the revert.
  abbrev reverted_session : Session → Session
  reverted_session s = (perform host revert_rootfs_chown (perform host freeze s).1).1

  revert_step :
      (s : Session)
      → is_chowned_in_place s.container ≡ true
      → (perform host freeze s).0 ≡ none
      → (perform host revert_rootfs_chown (perform host freeze s).1).0 ≡ none
      → try (perform host freeze) (pause_frozen host) s ≡ (none, reverted_session s)
  unfolding pause_frozen revert_then_pause perform
  revert_step s free frozen reverted = ground arith

  pause_at_running :
      (answer : Result Error Status) (s : Session)
      → answer ≡ ok running
      → pause_at host answer s ≡ try (perform host freeze) (pause_frozen host) s
  unfolding pause_at
  pause_at_running answer s h = rw h

  -- If the status is running, the rootfs was chowned in place, and the freeze and the revert of the
  -- chown succeed, then a pause reports success, the state is not the paused one, and the freeze and
  -- the revert are the only actions.
  pub pause_ends_at_revert :
      (s : Session)
      → is_chowned_in_place s.container ≡ true
      → (current_status host s).0 ≡ ok running
      → (perform host freeze (current_status host s).1).0 ≡ none
      → (perform host revert_rootfs_chown (perform host freeze (current_status host s).1).1).0
        ≡ none
      → ((pause host s).0 ≡ none)
        × ((pause host s).1.container.state ≢ paused_state)
        × (actions (pause host s).1.calls ≡ revert_rootfs_chown ∷ freeze ∷ actions s.calls)
  unfolding pause
  pause_ends_at_revert s free run frozen reverted =
      let s1 = (current_status host s).1 in
      let ends : pause host s ≡ (none, reverted_session s1) =
        pause_at_running (current_status host s).0 s1 run
        ∙ revert_step s1 (chowned_frame s ∙ free) frozen reverted in
      rw ends (
        refl,
        unfold perform status in ground (arith, current_status-status s run),
        unfold perform in
            ap (λ l. revert_rootfs_chown ∷ freeze ∷ l) (current_status-actions host s),
      )

  transition-running :
      (s : Session)
      → is_restored s.container.state ≡ false
      → (transition host running_state s).0 ≡ none
      → (transition host running_state s).1.container.state ≡ running_state
  transition-running s free done = ground (arith, transition_reaches host running_state s)

  abbrev Runs : Option Error × Session → Type 0
  Runs r = r.0 ≡ none → r.1.container.state ≡ running_state

  thaw-Runs :
      (s : Session)
      → is_restored s.container.state ≡ false
      → Runs (try (perform host thaw) (transition host running_state) s)
  unfolding perform
  thaw-Runs s free done = ground (arith, transition-running (perform host thaw s).1)

  mgr-Runs :
      (told : Bool) (s : Session)
      → is_restored s.container.state ≡ false
      → Runs (
          try
            (if told then perform host mgr_resume else pure none)
            (try (perform host thaw) (transition host running_state))
            s)
  unfolding perform
  mgr-Runs true s free done = ground (arith, thaw-Runs (perform host mgr_resume s).1)
  mgr-Runs false s free done = thaw-Runs s free done

  resume-Runs :
      (chowned told : Bool) (s : Session)
      → is_restored s.container.state ≡ false
      → Runs (
          try
            (if chowned then perform host chown_rootfs else pure none)
            (try
              (if told then perform host mgr_resume else pure none)
              (try (perform host thaw) (transition host running_state)))
            s)
  unfolding perform
  resume-Runs true told s free done = ground (arith, mgr-Runs told (perform host chown_rootfs s).1)
  resume-Runs false told s free done = mgr-Runs told s free done

  resume_at-Runs :
      (answer : Result Error Status) (s : Session)
      → (answer ≡ ok paused → is_restored s.container.state ≡ false)
      → Runs (resume_at host answer s)
  unfolding resume_at resume_paused
  resume_at-Runs (ok paused) s free done =
      resume-Runs (is_chowned_in_place s.container) s.container.sysbox_mgr_enabled s (free refl)
        done
  resume_at-Runs (ok created) s free done = cc
  resume_at-Runs (ok running) s free done = cc
  resume_at-Runs (ok pausing) s free done = cc
  resume_at-Runs (ok stopped) s free done = cc
  resume_at-Runs (err e) s free done = cc

  -- A resume that succeeds leaves the container running.
  pub resume-running :
      (s : Session) → (resume host s).0 ≡ none → (resume host s).1.container.state ≡ running_state
  unfolding resume status
  resume-running s done =
      resume_at-Runs (current_status host s).0 (current_status host s).1
        (λ known. ground (arith, current_status-status s known)) done

  -- If the status is reported and is not paused, the container is not resumed: the error says so,
  -- and no action is made.
  pub resume_refused :
      (s : Session) {st : Status}
      → (current_status host s).0 ≡ ok st
      → st ≢ paused
      → ((resume host s).0 ≡ some (generic container_not_paused))
        × (actions (resume host s).1.calls ≡ actions s.calls)
  unfolding resume resume_at
  resume_refused s h ne = ground (arith, current_status-actions host s)
