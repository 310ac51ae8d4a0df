-- ===== src/Container/Destroy/Outcome.antt =====
-- When `destroy` is refused, and what it leaves behind when it succeeds, from every state.
use sysbox_runc.Prelude.{ℕ, suc, ◌≡◌, refl, ◌⊎◌, Bool, true, false, Option, none, some, arith}
use sysbox_runc.Container.Session.{
  created, running, ContainerState, stopped_state, running_state, created_state, paused_state,
  restored_state, loaded_state, Session, Error, Host, generic, container_not_stopped,
  container_paused, perform, thaw, stat_checkpoint,
}
use sysbox_runc.Container.Status.{run_type, is_paused}
use sysbox_runc.Container.Transition.{
  refresh_state, state_of_run_type, refresh_paused, refresh_running,
}
use sysbox_runc.Container.Transition.Edges.{run_type-container}
use sysbox_runc.Container.Transition.Accuracy.{transition_reaches, asked}
use sysbox_runc.Container.Destroy.{
  destroy_running, destroy_created, thaw_and_destroy, destroy_paused, destroy_checked,
  destroy_restored, state_destroy_from, state_destroy,
}
use sysbox_runc.Container.Destroy.Laws.{actions, run_type-actions, destroy_container_stops}

module _ (host : Host) where
  -- A running container is not destroyed while its init process is alive: the error says so, the
  -- container stays as it was, and no action is made.
  pub state_destroy_alive :
      (s : Session)
      → s.container.state ≡ running_state
      → (run_type host s).0 ≡ running
      → ((state_destroy host s).0 ≡ some (generic container_not_stopped))
        × ((state_destroy host s).1.container ≡ s.container)
        × (actions (state_destroy host s).1.calls ≡ actions s.calls)
  unfolding state_destroy state_destroy_from destroy_running
  state_destroy_alive s r alive = ground (arith, run_type-container host s, run_type-actions host s)

  -- A paused container whose init process is alive is not destroyed: the error says so, the
  -- container stays as it was, and no action is made.
  pub state_destroy_paused :
      (s : Session)
      → s.container.state ≡ paused_state
      → ((run_type host s).0 ≡ running) ⊎ ((run_type host s).0 ≡ created)
      → ((state_destroy host s).0 ≡ some (generic container_paused))
        × ((state_destroy host s).1.container ≡ s.container)
        × (actions (state_destroy host s).1.calls ≡ actions s.calls)
  unfolding state_destroy state_destroy_from destroy_paused
  state_destroy_paused s r alive =
      ground (arith, run_type-container host s, run_type-actions host s)

  Stops : Option Error × Session → Type 0
  Stops r = r.0 ≡ none → (r.1.container.state ≡ stopped_state) × (r.1.container.init_process ≡ none)

  abbrev is_loaded : ContainerState → Bool
  is_loaded (loaded_state _) = true
  is_loaded _ = false

  plain_destroy-Stops :
      (fuel : ℕ) (state : ContainerState) (s : Session)
      → is_loaded state ≡ false
      → Stops (state_destroy_from host fuel state s)
  unfolding Stops state_destroy_from destroy_running destroy_created destroy_paused thaw_and_destroy
      destroy_restored destroy_checked
  plain_destroy-Stops fuel stopped_state s h done = destroy_container_stops host s
  plain_destroy-Stops fuel running_state s h done =
      ground (arith, destroy_container_stops host (run_type host s).1)
  plain_destroy-Stops fuel created_state s h done = destroy_container_stops host _
  plain_destroy-Stops fuel paused_state s h done =
      ground (arith, destroy_container_stops host (perform host thaw (run_type host s).1).1)
  plain_destroy-Stops fuel (restored_state d) s h done =
      ground (arith, destroy_container_stops host (perform host stat_checkpoint s).1)
  plain_destroy-Stops fuel (loaded_state l) s h done = cc

  refresh_state-loaded :
      (s : Session)
      → is_loaded s.container.state ≡ true
      → (refresh_state host s).0 ≡ none
      → is_loaded (refresh_state host s).1.container.state ≡ false
  unfolding refresh_state refresh_paused refresh_running is_paused
  refresh_state-loaded s l h =
      let (t, s2) = run_type host (asked host s) in
      ground (
        arith,
        transition_reaches host paused_state (asked host s),
        transition_reaches host (state_of_run_type t) s2,
        run_type-container host (asked host s),
      )

  plain_fuel :
      (fuel k : ℕ) (state : ContainerState) (s : Session)
      → is_loaded state ≡ false
      → state_destroy_from host fuel state s ≡ state_destroy_from host k state s
  unfolding state_destroy_from
  plain_fuel fuel k stopped_state s h = refl
  plain_fuel fuel k running_state s h = refl
  plain_fuel fuel k created_state s h = refl
  plain_fuel fuel k paused_state s h = refl
  plain_fuel fuel k (restored_state d) s h = refl
  plain_fuel fuel k (loaded_state l) s h = cc

  loaded_fuel :
      (fuel k : ℕ) (state : ContainerState) (s : Session)
      → s.container.state ≡ state
      → state_destroy_from host (suc fuel) state s ≡ state_destroy_from host (suc k) state s
  unfolding state_destroy_from
  loaded_fuel fuel k (loaded_state l) s same =
      let r = (refresh_state host s).1 in
      ground (arith, plain_fuel fuel k r.container.state r, refresh_state-loaded s)
  loaded_fuel fuel k stopped_state s same = refl
  loaded_fuel fuel k running_state s same = refl
  loaded_fuel fuel k created_state s same = refl
  loaded_fuel fuel k paused_state s same = refl
  loaded_fuel fuel k (restored_state d) s same = refl

  -- The destroy of the state has one result for every fuel from 1 on.
  pub state_destroy_fuel :
      (fuel : ℕ) (s : Session)
      → state_destroy_from host (suc fuel) s.container.state s ≡ state_destroy host s
  unfolding state_destroy
  state_destroy_fuel fuel s = loaded_fuel fuel 0 s.container.state s refl

  destroy_from-Stops :
      (state : ContainerState) (s : Session)
      → s.container.state ≡ state
      → Stops (state_destroy_from host 1 state s)
  unfolding state_destroy_from Stops
  destroy_from-Stops (loaded_state l) s same done =
      let r = (refresh_state host s).1 in
      ground (arith, plain_destroy-Stops 0 r.container.state r, refresh_state-loaded s)
  destroy_from-Stops stopped_state s same done = plain_destroy-Stops 1 stopped_state s refl done
  destroy_from-Stops running_state s same done = plain_destroy-Stops 1 running_state s refl done
  destroy_from-Stops created_state s same done = plain_destroy-Stops 1 created_state s refl done
  destroy_from-Stops paused_state s same done = plain_destroy-Stops 1 paused_state s refl done
  destroy_from-Stops (restored_state d) s same done =
      plain_destroy-Stops 1 (restored_state d) s refl done

  -- A destroy that succeeds ends in the stopped state with no init process, from every state.
  pub state_destroy_stops :
      (s : Session)
      → (state_destroy host s).0 ≡ none
      → ((state_destroy host s).1.container.state ≡ stopped_state)
        × ((state_destroy host s).1.container.init_process ≡ none)
  unfolding state_destroy Stops
  state_destroy_stops s done = destroy_from-Stops s.container.state s refl done
