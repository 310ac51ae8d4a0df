-- ===== src/Container/Lifecycle/Destroying.antt =====
-- What `Destroy` leaves behind, and which errors it returns.
use sysbox_runc.Prelude.{◌≡◌, false, Option, none, ◌∷◌, arith}
use sysbox_runc.Container.Session.{
  stopped_state, Session, Error, Host, perform, first_error, get_mounts, teardown_shiftfs_mark,
}
use sysbox_runc.Container.Destroy.{state_destroy}
use sysbox_runc.Container.Destroy.Laws.{actions}
use sysbox_runc.Container.Destroy.Outcome.{state_destroy_stops}
use sysbox_runc.Container.Lifecycle.{revert_chown, teardown, unregister, unregister_fs, destroy}

module _ (host : Host) where
  unregister-none :
      (failed : Option Error) (s : Session)
      → (unregister host failed s).0 ≡ none
      → (failed ≡ none) × ((unregister host failed s).1.container ≡ s.container)
  unfolding unregister teardown perform
  unregister-none failed s h = ground arith

  unregister_fs-container : (s : Session) → (unregister_fs host s).1.container ≡ s.container
  unfolding unregister_fs perform
  unregister_fs-container s = ground arith

  -- A `Destroy` without an error leaves the container in the stopped state with no init process.
  pub destroy_stops :
      (s : Session)
      → (destroy host s).0 ≡ none
      → ((destroy host s).1.container.state ≡ stopped_state)
        × ((destroy host s).1.container.init_process ≡ none)
  unfolding destroy
  destroy_stops s done =
      let (reverted, s1) = revert_chown host s in
      let (ended, s2) = state_destroy host s1 in
      let (fs, s3) = unregister_fs host s2 in
      ground (
        arith,
        unregister-none (first_error (first_error reverted ended) fs) s3 done,
        unregister_fs-container s2,
        state_destroy_stops host s1,
      )

  -- Without sysbox-mgr, if the mounts can be read, the error that is returned is the earlier one,
  -- whatever the shiftfs teardown answers.
  pub teardown_error_lost :
      (failed : Option Error) (s : Session)
      → s.container.sysbox_mgr_enabled ≡ false
      → (perform host get_mounts s).0 ≡ none
      → ((unregister host failed s).0 ≡ failed)
        × (actions (unregister host failed s).1.calls
            ≡ teardown_shiftfs_mark ∷ get_mounts ∷ actions s.calls)
  unfolding unregister teardown perform
  teardown_error_lost failed s off read = ground arith
