-- ===== src/Start/Panics.antt =====
-- A panic of the parent while it starts a container, and what it has to come from.
pub mod Reason
use sysbox_runc.Prelude.{
  ℕ, String, ◌≡◌, ◌∙◌, refl, sym, ap, arith, Bool, true, false, not, ◌&&◌, Option, none, some, List,
  [], ◌∷◌, ◌++◌, inl, inr, if◌then◌else◌, Bool-cases, Option-cases,
}
use sysbox_runc.Start.Sync.{
  SyncType, proc_error, proc_ready, proc_run, proc_hooks, proc_resume, req_op, send_op_info,
  op_done, proc_fd, send_fd, proc_fd_done, rootfs_ready, rootfs_ready_ack, OpReq, OpType, Message,
  sync, generic_error, requests, seccomp_fd, garbage,
}
use sysbox_runc.Start.Calls.{
  Host, Session, M, try, try_ok, try_error, when, update, fail, done, perform, perform_, is_panic,
  call_error, StartError, Action, mark_created, mark_run, mark_resume,
}
use sysbox_runc.Start.Calls
use sysbox_runc.Start.Parent.{
  Start, run_early_hooks, set_rdt, store_state, handle_ready, register_with_sysboxfs,
  handle_rootfs_ready, handle_hooks, dispatch_op, handle_req_op, handle_ops, proc_seccomp_init,
  handle_fd, handle, parse_sync, remote_error, wait_process, after_sync, init_error, wait_and_fail,
  sync_with_child, prepare_cgroups, bootstrap_child, configure_child, run_started,
}

-- A panic has a reason.
pub record PanicsOnly (P : Type 0) (m : M) : Type 0 where
  pub because : (s : Session) → is_panic (m s).0 ≡ true → P

module _ (P : Type 0) (host : Host) (start : Start) where
  pub try-PanicsOnly : (m k : M) → PanicsOnly P m → PanicsOnly P k → PanicsOnly P (try m k)
  try-PanicsOnly m k first second = record {
    because = λ s panic. elim (Option-cases (m s).0) [
      | inl fine ↦ second.because (m s).1 (sym (ap (λ o. is_panic o.0) (try_ok m k s fine)) ∙ panic)
      | inr (e, failed) ↦
          first.because s
            (ap is_panic failed ∙ sym (ap (λ o. is_panic o.0) (try_error m k s e failed)) ∙ panic)
    ];
  }

  when-PanicsOnly : (b : Bool) (m : M) → PanicsOnly P m → PanicsOnly P (when b m)
  when-PanicsOnly true m reason = reason
  when-PanicsOnly false m reason = record { because = λ s panic. ground arith }

  pub fail-PanicsOnly : (e : StartError) → is_panic (some e) ≡ false → PanicsOnly P (fail e)
  fail-PanicsOnly e regular = record { because = λ s panic. ground arith }

  pub done-PanicsOnly : PanicsOnly P done
  done-PanicsOnly = record { because = λ s panic. ground arith }

  update-PanicsOnly : (f : Session → Session) → PanicsOnly P (update f)
  update-PanicsOnly f = record { because = λ s panic. ground arith }

  perform-PanicsOnly : (a : Action) → PanicsOnly P (perform host a)
  unfolding perform
  perform-PanicsOnly a = record { because = λ s panic. answered (host.answer s.calls a) panic }
    where
      answered : (e : Option String) → is_panic (call_error a e) ≡ true → P
      answered none panic = ground arith
      answered (some e) panic = ground arith

  dropped-PanicsOnly : (a : Action) → PanicsOnly P (perform_ host a)
  unfolding perform_
  dropped-PanicsOnly a = record { because = λ s panic. ground arith }

  pub calls-PanicsOnly :
      (a : Action) (k : M) → PanicsOnly P k → PanicsOnly P (try (perform host a) k)
  calls-PanicsOnly a k behind = try-PanicsOnly _ k (perform-PanicsOnly a) behind

  early_hooks-PanicsOnly : PanicsOnly P (run_early_hooks host start)
  unfolding run_early_hooks
  early_hooks-PanicsOnly = when-PanicsOnly start.has_hooks _ (
      calls-PanicsOnly Action.current_oci_state _ (
        calls-PanicsOnly (Action.run_hooks Calls.prestart) _
          (perform-PanicsOnly (Action.run_hooks Calls.create_runtime))))

  set_rdt-PanicsOnly : PanicsOnly P (set_rdt host start)
  unfolding set_rdt
  set_rdt-PanicsOnly = when-PanicsOnly start.has_rdt _ (perform-PanicsOnly Action.rdt_set)

  store_state-PanicsOnly : PanicsOnly P (store_state host start)
  unfolding store_state
  store_state-PanicsOnly = record {
    because = λ s panic. stored (perform host Action.update_state s).0 panic;
  }
    where
      stored :
          (e : Option StartError)
          → is_panic
              (elim e [ none ↦ none | some x ↦ some (StartError.no_cause Action.update_state) ])
            ≡ true
          → P
      stored none panic = ground arith
      stored (some e) panic = ground arith

  pub handle-PanicsOnly : (t : SyncType) → PanicsOnly P (handle host start t)
  unfolding handle handle_ready handle_hooks handle_rootfs_ready register_with_sysboxfs
  handle-PanicsOnly proc_ready = calls-PanicsOnly Action.set_rlimits _ (
      try-PanicsOnly _ _
        (when-PanicsOnly (not start.has_mount_ns) _
          (try-PanicsOnly _ _ set_rdt-PanicsOnly early_hooks-PanicsOnly))
        (try-PanicsOnly _ _ (update-PanicsOnly mark_created) (
          try-PanicsOnly _ _ store_state-PanicsOnly
            (calls-PanicsOnly (Action.write proc_run) _ (update-PanicsOnly mark_run)))))
  handle-PanicsOnly rootfs_ready =
      try-PanicsOnly _ _
        (when-PanicsOnly start.is_cgroup_v2 _ (
          calls-PanicsOnly Action.create_child_cgroup _
            (perform-PanicsOnly Action.apply_child_cgroup)))
        (try-PanicsOnly _ _
          (when-PanicsOnly start.fs_enabled _ (perform-PanicsOnly Action.fs_register))
          (perform-PanicsOnly (Action.write rootfs_ready_ack)))
  handle-PanicsOnly proc_hooks = try-PanicsOnly _ _ set_rdt-PanicsOnly (
      try-PanicsOnly _ _ early_hooks-PanicsOnly
        (calls-PanicsOnly (Action.write proc_resume) _ (update-PanicsOnly mark_resume)))
  handle-PanicsOnly _ = fail-PanicsOnly StartError.invalid_payload refl

  dispatch_op-PanicsOnly :
      (op : OpType) (reqs : List OpReq) → PanicsOnly P (dispatch_op host start op reqs)
  unfolding dispatch_op
  dispatch_op-PanicsOnly OpType.other_op reqs = fail-PanicsOnly StartError.invalid_request refl
  dispatch_op-PanicsOnly op reqs = perform-PanicsOnly (Action.handle_op op reqs)

  pub handle_ops-PanicsOnly : (reqs : List OpReq) → PanicsOnly P (handle_ops host start reqs)
  unfolding handle_ops handle_req_op
  handle_ops-PanicsOnly [] =
      try-PanicsOnly _ _ (fail-PanicsOnly StartError.no_requests refl)
        (perform-PanicsOnly (Action.write op_done))
  handle_ops-PanicsOnly (req ∷ reqs) =
      try-PanicsOnly _ _ (dispatch_op-PanicsOnly req.op (req ∷ reqs))
        (perform-PanicsOnly (Action.write op_done))

  pub handle_fd-PanicsOnly : (fd : ℕ) → PanicsOnly P (handle_fd host start fd)
  unfolding handle_fd proc_seccomp_init
  handle_fd-PanicsOnly fd =
      try-PanicsOnly _ _
        (when-PanicsOnly start.fs_enabled _ (perform-PanicsOnly (Action.send_seccomp_init fd)))
        (perform-PanicsOnly (Action.write proc_fd_done))

  pub bad-PanicsOnly : PanicsOnly P (fail StartError.bad_message)
  bad-PanicsOnly = fail-PanicsOnly StartError.bad_message refl

  pub prepare-PanicsOnly : PanicsOnly P (prepare_cgroups host start)
  unfolding prepare_cgroups
  prepare-PanicsOnly = calls-PanicsOnly Action.cgroup_apply _ (
      calls-PanicsOnly Action.cgroup_set _ (
        try-PanicsOnly _ _
          (when-PanicsOnly (not start.is_cgroup_v2) _
            (perform-PanicsOnly Action.create_child_cgroup))
          (calls-PanicsOnly Action.setup_dev_subdir _
            (when-PanicsOnly start.has_rdt _ (perform-PanicsOnly Action.rdt_apply)))))

  pub bootstrap-PanicsOnly : PanicsOnly P (bootstrap_child host start)
  unfolding bootstrap_child
  bootstrap-PanicsOnly = calls-PanicsOnly Action.copy_bootstrap _ (
      calls-PanicsOnly Action.get_child_pid _ (
        calls-PanicsOnly Action.get_pipe_fds _ (
          try-PanicsOnly _ _
            (when-PanicsOnly (not start.is_cgroup_v2) _
              (perform-PanicsOnly Action.apply_child_cgroup))
            (try-PanicsOnly _ _
              (when-PanicsOnly start.has_rdt _ (perform-PanicsOnly Action.rdt_apply_child))
              (when-PanicsOnly start.private_cgroup_ns _
                (perform-PanicsOnly Action.write_create_cgroupns))))))

  pub configure-PanicsOnly : PanicsOnly P (configure_child host start)
  unfolding configure_child
  configure-PanicsOnly = calls-PanicsOnly Action.wait_first_child _ (
      calls-PanicsOnly Action.create_network _
        (calls-PanicsOnly Action.update_spec_state _ (perform-PanicsOnly Action.send_config)))

  wait-PanicsOnly : PanicsOnly P (wait_process host start)
  unfolding wait_process
  wait-PanicsOnly =
      try-PanicsOnly _ _ (dropped-PanicsOnly Action.wait)
        (when-PanicsOnly start.share_pid_ns _ (dropped-PanicsOnly Action.signal_all))

  wait_and_fail-PanicsOnly :
      (ierr : Option StartError)
      → is_panic ierr ≡ false
      → PanicsOnly P (wait_and_fail host start ierr)
  wait_and_fail-PanicsOnly none regular = done-PanicsOnly
  wait_and_fail-PanicsOnly (some e) regular =
      try-PanicsOnly _ _ wait-PanicsOnly (fail-PanicsOnly e regular)

  pub after_sync-PanicsOnly :
      (ierr : Option StartError) → is_panic ierr ≡ false → PanicsOnly P (after_sync host start ierr)
  unfolding after_sync
  after_sync-PanicsOnly ierr regular = record {
    because = λ s. by_flags (not s.sent_run) (start.has_mount_ns && not s.sent_resume) s;
  }
    where
      unsynced : (ierr : Option StartError) → is_panic (some (init_error host start ierr)) ≡ false
      unsynced none = refl
      unsynced (some e) = refl

      by_flags :
          (a b : Bool) (s : Session)
          → is_panic
              (if a
                then (some (init_error host start ierr), s)
                else if b
                then (some StartError.not_resumed, s)
                else try (perform host Action.shutdown) (wait_and_fail host start ierr) s).0
            ≡ true
          → P
      by_flags true b s panic = (fail-PanicsOnly _ (unsynced ierr)).because s panic
      by_flags false true s panic = (fail-PanicsOnly StartError.not_resumed refl).because s panic
      by_flags false false s panic =
          (calls-PanicsOnly Action.shutdown _ (wait_and_fail-PanicsOnly ierr regular)).because s
            panic
