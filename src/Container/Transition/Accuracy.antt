-- ===== src/Container/Transition/Accuracy.antt =====
-- The status that is reported, against what the host shows.
use sysbox_runc.Prelude.{◌≡◌, Bool, true, false, none, ok, arith, if◌then◌else◌}
use sysbox_runc.Container.Session.{
  Status, running, paused, ContainerState, paused_state, restored_state, Session, Host, ask_frozen,
}
use sysbox_runc.Container.Status.{status, run_type, is_paused}
use sysbox_runc.Container.Transition.{
  transition, refresh_state, current_status, transition_from, stop_running, state_of_run_type,
  refresh_paused, refresh_running,
}
use sysbox_runc.Container.Transition.Edges.{run_type-container, run_type_cases}

abbrev pub is_restored : ContainerState → Bool
is_restored (restored_state _) = true
is_restored _ = false

module _ (host : Host) where
  -- The session after the freezer was asked.
  abbrev pub asked : Session → Session
  asked s = (ask_frozen host s).1

  -- What the host shows of the container: frozen, or what its init process and exec fifo tell.
  pub observed : Session → Status
  unfolding ask_frozen
  observed s = if (host.frozen s.calls).1 then paused else (run_type host (asked s)).0

  pub transition_reaches :
      (to : ContainerState) (s : Session)
      → (transition host to s).0 ≡ none
      → (is_restored s.container.state ≡ false → (transition host to s).1.container.state ≡ to)
        × (is_restored s.container.state ≡ true
            → (transition host to s).1.container.state ≡ s.container.state)
  unfolding transition transition_from stop_running
  transition_reaches to s h = (
    λ free. ground (arith, run_type-container host s),
    λ restored. ground (arith, run_type-container host s),
  )

  refresh_reaches :
      (s : Session)
      → (refresh_state host s).0 ≡ none
      → (is_restored s.container.state ≡ false
          → status (refresh_state host s).1.container.state ≡ observed s)
        × (is_restored s.container.state ≡ true
            → (refresh_state host s).1.container.state ≡ s.container.state)
  unfolding refresh_state refresh_paused refresh_running is_paused ask_frozen observed status
  refresh_reaches s h =
      let (t, s2) = run_type host (asked s) in
      (
        λ free. ground (
          arith,
          transition_reaches paused_state (asked s),
          transition_reaches (state_of_run_type t) s2,
          run_type-container host (asked s),
          run_type_cases host (asked s),
        ),
        λ restored. ground (
          arith,
          transition_reaches paused_state (asked s),
          transition_reaches (state_of_run_type t) s2,
          run_type-container host (asked s),
        ),
      )

  -- If the status of a restored container is reported without an error, it is running, whatever the
  -- host shows.
  pub current_status-restored :
      (s : Session) {st : Status}
      → is_restored s.container.state ≡ true
      → (current_status host s).0 ≡ ok st
      → st ≡ running
  unfolding current_status status
  current_status-restored s restored h = ground (arith, refresh_reaches s)
