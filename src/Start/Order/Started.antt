-- ===== src/Start/Order/Started.antt =====
-- The order holds for the whole start, whatever the init process writes.
use sysbox_runc.Prelude.{
  ◌≡◌, refl, sym, Bool, true, false, not, ◌&&◌, Option, none, some, List, [], inl, inr,
  if◌then◌else◌, Bool-cases, Option-cases, subst,
}
use sysbox_runc.Start.Sync.{Message}
use sysbox_runc.Start.Calls.{
  Host, Session, M, try, when, fail, perform, perform_, is_panic, StartError, Action,
}
use sysbox_runc.Start.Parent.{
  Start, parse_sync, wait_process, after_sync, init_error, wait_and_fail, sync_with_child,
  prepare_cgroups, bootstrap_child, configure_child, run_started, clean_up, or_clean_up,
  or_clean_up_error, start_init,
}
use sysbox_runc.Start.Order.{
  IsOrdered, Step, is_answer, perform_-Step, try-Step, when-Step, fail-Step, drop-Step,
}
use sysbox_runc.Start.Order.Handled.{call-Step, parse_sync-Step}

module _ (host : Host) (start : Start) where
  ignored-Step : (a : Action) → is_answer a ≡ false → Step start [] (perform_ host a) []
  ignored-Step a other = perform_-Step host start [] a other

  call_if-Step : (b : Bool) (m : M) → Step start [] m [] → Step start [] (when b m) []
  call_if-Step b m step = drop-Step start _ _ _ (when-Step start b [] [] m step)

  wait-Step : Step start [] (wait_process host start) []
  unfolding wait_process
  wait-Step =
      let step =
        try-Step start _ _ _ _ _ (ignored-Step Action.wait refl)
          (call_if-Step start.share_pid_ns _ (ignored-Step Action.signal_all refl)) in
      record { keeps = step.keeps; reaches = step.reaches }

  after_sync-Step : (ierr : Option StartError) → Step start [] (after_sync host start ierr) []
  unfolding after_sync
  after_sync-Step ierr = record {
    keeps = λ s ordered h.
        by_flags (not s.sent_run) (start.has_mount_ns && not s.sent_resume) s ordered;
    reaches = λ s h fine. tt;
  }
    where
      shut : (e : Option StartError) → Step start [] (wait_and_fail host start e) []
      shut none = record { keeps = λ s ordered h. ordered; reaches = λ s h fine. tt }
      shut (some e) = try-Step start _ [] _ _ _ wait-Step (fail-Step start _ _ e)

      by_flags :
          (a b : Bool) (s : Session)
          → IsOrdered start s.calls
          → IsOrdered start
              (if a
                then (some (init_error host start ierr), s)
                else if b
                then (some StartError.not_resumed, s)
                else try (perform host Action.shutdown) (wait_and_fail host start ierr) s).1.calls
      by_flags true b s ordered = ordered
      by_flags false true s ordered = ordered
      by_flags false false s ordered =
          (try-Step start _ [] _ _ _ (call-Step host start Action.shutdown refl) (shut ierr)).keeps
            s ordered tt

  sync_with_child-Step :
      (inbox : List Message) → Step start [] (sync_with_child host start inbox) []
  unfolding sync_with_child
  sync_with_child-Step inbox = record {
    keeps = λ s ordered h.
        let handled = (parse_sync-Step host start inbox).keeps s ordered tt in
        elim (Bool-cases (is_panic (parse_sync host start inbox s).0)) [
          | inl panic ↦ rw panic handled
          | inr regular ↦ rw regular (
              (after_sync-Step (parse_sync host start inbox s).0).keeps
                (parse_sync host start inbox s).1 handled tt)
        ];
    reaches = λ s h fine. tt;
  }

  prepare-Step : Step start [] (prepare_cgroups host start) []
  unfolding prepare_cgroups
  prepare-Step = try-Step start _ _ _ _ _ (call-Step host start Action.cgroup_apply refl) (
      try-Step start _ _ _ _ _ (call-Step host start Action.cgroup_set refl) (
        try-Step start _ _ _ _ _
          (call_if-Step (not start.is_cgroup_v2) _
            (call-Step host start Action.create_child_cgroup refl))
          (try-Step start _ _ _ _ _ (call-Step host start Action.setup_dev_subdir refl)
            (call_if-Step start.has_rdt _ (call-Step host start Action.rdt_apply refl)))))

  bootstrap-Step : Step start [] (bootstrap_child host start) []
  unfolding bootstrap_child
  bootstrap-Step = try-Step start _ _ _ _ _ (call-Step host start Action.copy_bootstrap refl) (
      try-Step start _ _ _ _ _ (call-Step host start Action.get_child_pid refl) (
        try-Step start _ _ _ _ _ (call-Step host start Action.get_pipe_fds refl) (
          try-Step start _ _ _ _ _
            (call_if-Step (not start.is_cgroup_v2) _
              (call-Step host start Action.apply_child_cgroup refl))
            (try-Step start _ _ _ _ _
              (call_if-Step start.has_rdt _ (call-Step host start Action.rdt_apply_child refl))
              (call_if-Step start.private_cgroup_ns _
                (call-Step host start Action.write_create_cgroupns refl))))))

  configure-Step : Step start [] (configure_child host start) []
  unfolding configure_child
  configure-Step = try-Step start _ _ _ _ _ (call-Step host start Action.wait_first_child refl) (
      try-Step start _ _ _ _ _ (call-Step host start Action.create_network refl) (
        try-Step start _ _ _ _ _ (call-Step host start Action.update_spec_state refl)
          (call-Step host start Action.send_config refl)))

  run_started-Step : (inbox : List Message) → Step start [] (run_started host start inbox) []
  unfolding run_started
  run_started-Step inbox = try-Step start _ _ _ _ _ prepare-Step (
      try-Step start _ _ _ _ _ bootstrap-Step
        (try-Step start _ _ _ _ _ configure-Step (sync_with_child-Step inbox)))

  clean_up-Step : Step start [] (clean_up host start) []
  unfolding clean_up
  clean_up-Step = try-Step start _ _ _ _ _ (ignored-Step Action.kill refl) (
      try-Step start _ _ _ _ _ wait-Step (
        try-Step start _ _ _ _ _ (ignored-Step Action.cgroup_destroy refl)
          (call_if-Step start.has_rdt _ (ignored-Step Action.rdt_destroy refl))))

  or_clean_up-Step : (m : M) → Step start [] m [] → Step start [] (or_clean_up host start m) []
  or_clean_up-Step m step = record {
    keeps = λ s ordered h. elim (Bool-cases (is_panic (m s).0)) [
      | inl panic ↦ rw (or_clean_up, panic) (step.keeps s ordered tt)
      | inr regular ↦ elim (Option-cases (m s).0) [
        | inl fine ↦ rw (or_clean_up, fine) (step.keeps s ordered tt)
        | inr (e, failed) ↦
            let shape : or_clean_up host start m s ≡ try (clean_up host start) (fail e) (m s).1 =
              or_clean_up_error host start m s e failed regular in
            subst (λ o. IsOrdered start o.1.calls) (sym shape)
              ((try-Step start [] [] [] _ _ clean_up-Step (fail-Step start [] [] e)).keeps (m s).1
                (step.keeps s ordered tt) tt)
      ]
    ];
    reaches = λ s h fine. tt;
  }

  -- Whatever the init process writes and whatever fails, an answer that is written stands after the
  -- steps that it needs, all of which succeeded: the order of the calls so far is kept.
  pub start_init-IsOrdered :
      (inbox : List Message) (s : Session)
      → IsOrdered start s.calls
      → IsOrdered start (start_init host start inbox s).1.calls
  unfolding start_init
  start_init-IsOrdered inbox s ordered =
      (try-Step start _ [] _ _ _ (call-Step host start Action.cmd_start refl)
          (or_clean_up-Step _ (run_started-Step inbox))).keeps
        s ordered tt
