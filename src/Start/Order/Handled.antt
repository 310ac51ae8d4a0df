-- ===== src/Start/Order/Handled.antt =====
-- The order holds while the parent handles what the init process writes.
use sysbox_runc.Prelude.{ℕ, ◌≡◌, refl, arith, false, not, Option, none, some, List, [], ◌∷◌}
use sysbox_runc.Start.Sync.{
  SyncType, proc_error, proc_ready, proc_run, proc_hooks, proc_resume, req_op, send_op_info,
  op_done, proc_fd, send_fd, proc_fd_done, rootfs_ready, rootfs_ready_ack, OpReq, OpType, Message,
  sync, generic_error, requests, seccomp_fd,
}
use sysbox_runc.Start.Calls.{
  Host, Session, M, try, when, update, fail, done, perform, perform_, is_panic, StartError, Action,
  mark_created, mark_run, mark_resume,
}
use sysbox_runc.Start.Calls
use sysbox_runc.Start.Parent.{
  Start, run_early_hooks, set_rdt, store_state, handle_ready, register_with_sysboxfs,
  handle_rootfs_ready, handle_hooks, dispatch_op, handle_req_op, handle_ops, proc_seccomp_init,
  handle_fd, handle, parse_sync, remote_error,
}
use sysbox_runc.Start.Order.{
  after_rdt, after_hooks, needs, Step, is_answer, perform-Step, write-Step, try-Step, when-Step,
  update-Step, fail-Step, drop-Step,
}

module _ (host : Host) (start : Start) where
  abbrev limits : List Action
  limits = Action.set_rlimits ∷ []

  early_hooks-Step :
      (p : List Action) → Step start p (run_early_hooks host start) (after_hooks start p)
  unfolding run_early_hooks
  early_hooks-Step p = when-Step start start.has_hooks p _ _ (
      try-Step start _ _ _ _ _ (perform-Step host start p Action.current_oci_state refl) (
        try-Step start _ _ _ _ _ (perform-Step host start _ (Action.run_hooks Calls.prestart) refl)
          (perform-Step host start _ (Action.run_hooks Calls.create_runtime) refl)))

  set_rdt-Step : (p : List Action) → Step start p (set_rdt host start) (after_rdt start p)
  unfolding set_rdt
  set_rdt-Step p =
      when-Step start start.has_rdt p _ _ (perform-Step host start p Action.rdt_set refl)

  store_state-Step :
      (p : List Action) → Step start p (store_state host start) (Action.update_state ∷ p)
  unfolding store_state
  store_state-Step p =
      let step = perform-Step host start p Action.update_state refl in
      record {
        keeps = step.keeps;
        reaches = λ s h fine. step.reaches s h (kept ((perform host Action.update_state s).0) fine);
      }
    where
      kept :
          (e : Option StartError)
          → (elim e [ none ↦ none | some x ↦ some (StartError.no_cause Action.update_state) ])
            ≡ none
          → e ≡ none
      kept none h = refl
      kept (some x) h = ground arith

  handle_ready-Step : Step start [] (handle_ready host start) (needs start proc_run)
  unfolding handle_ready needs
  handle_ready-Step =
      try-Step start _ _ _ _ _ (perform-Step host start [] Action.set_rlimits refl) (
        try-Step start _ _ _ _ _
          (when-Step start (not start.has_mount_ns) limits _ _
            (try-Step start _ _ _ _ _ (set_rdt-Step limits) (early_hooks-Step _)))
          (try-Step start _ _ _ _ _ (update-Step start _ mark_created (λ s. refl)) (
            try-Step start _ _ _ _ _ (store_state-Step _) (
              try-Step start _ _ _ _ _ (write-Step host start proc_run)
                (update-Step start _ mark_run (λ s. refl))))))

  handle_hooks-Step : Step start [] (handle_hooks host start) (needs start proc_resume)
  unfolding handle_hooks needs
  handle_hooks-Step = try-Step start _ _ _ _ _ (set_rdt-Step []) (
      try-Step start _ _ _ _ _ (early_hooks-Step _) (
        try-Step start _ _ _ _ _ (write-Step host start proc_resume)
          (update-Step start _ mark_resume (λ s. refl))))

  handle_rootfs-Step : Step start [] (handle_rootfs_ready host start) (needs start rootfs_ready_ack)
  unfolding handle_rootfs_ready register_with_sysboxfs needs
  handle_rootfs-Step =
      try-Step start _ _ _ _ _
        (when-Step start start.is_cgroup_v2 [] _ _ (
          try-Step start _ _ _ _ _ (perform-Step host start [] Action.create_child_cgroup refl)
            (perform-Step host start _ Action.apply_child_cgroup refl)))
        (try-Step start _ _ _ _ _
          (when-Step start start.fs_enabled _ _ _
            (perform-Step host start _ Action.fs_register refl))
          (write-Step host start rootfs_ready_ack))

  handle-Step : (t : SyncType) → Step start [] (handle host start t) []
  unfolding handle
  handle-Step proc_ready = drop-Step start _ _ _ handle_ready-Step
  handle-Step rootfs_ready = drop-Step start _ _ _ handle_rootfs-Step
  handle-Step proc_hooks = drop-Step start _ _ _ handle_hooks-Step
  handle-Step _ = fail-Step start _ _ StartError.invalid_payload

  -- A call, or an answer that needs nothing.
  pub call-Step : (a : Action) → is_answer a ≡ false → Step start [] (perform host a) []
  call-Step a other = drop-Step start _ _ _ (perform-Step host start [] a other)

  dispatch_op-Step :
      (op : OpType) (reqs : List OpReq) → Step start [] (dispatch_op host start op reqs) []
  unfolding dispatch_op
  dispatch_op-Step OpType.other_op reqs = fail-Step start _ _ StartError.invalid_request
  dispatch_op-Step op reqs = call-Step (Action.handle_op op reqs) refl

  handle_ops-Step : (reqs : List OpReq) → Step start [] (handle_ops host start reqs) []
  unfolding handle_ops handle_req_op needs
  handle_ops-Step [] =
      try-Step start _ [] _ _ _ (fail-Step start _ _ StartError.no_requests)
        (write-Step host start op_done)
  handle_ops-Step (req ∷ reqs) =
      try-Step start _ _ _ _ _ (dispatch_op-Step req.op (req ∷ reqs))
        (write-Step host start op_done)

  handle_fd-Step : (fd : ℕ) → Step start [] (handle_fd host start fd) []
  unfolding handle_fd proc_seccomp_init needs
  handle_fd-Step fd =
      try-Step start _ [] _ _ _
        (drop-Step start _ _ _ (
          when-Step start start.fs_enabled [] _ _
            (perform-Step host start [] (Action.send_seccomp_init fd) refl)))
        (write-Step host start proc_fd_done)

  remote_error-Step : (inbox : List Message) → Step start [] (remote_error host start inbox) []
  remote_error-Step [] = fail-Step start _ _ StartError.panicked
  remote_error-Step (generic_error e ∷ rest) = fail-Step start _ _ (StartError.remote e)
  remote_error-Step (sync t ∷ rest) = fail-Step start _ _ (StartError.remote "")
  remote_error-Step (_ ∷ rest) = fail-Step start _ _ StartError.bad_message

  info-Step : Step start [] (perform host (Action.write send_op_info)) []
  unfolding needs
  info-Step = write-Step host start send_op_info

  fd-Step : Step start [] (perform host (Action.write send_fd)) []
  unfolding needs
  fd-Step = write-Step host start send_fd

  bad-Step : Step start [] (fail StartError.bad_message) []
  bad-Step = fail-Step start _ _ StartError.bad_message

  pub parse_sync-Step : (inbox : List Message) → Step start [] (parse_sync host start inbox) []
  unfolding parse_sync
  parse_sync-Step [] = record { keeps = λ s ordered h. ordered; reaches = λ s h fine. tt }
  parse_sync-Step (sync proc_error ∷ rest) = remote_error-Step rest
  parse_sync-Step (sync req_op ∷ requests reqs ∷ rest) =
      try-Step start _ _ _ _ _ info-Step
        (try-Step start _ _ _ _ _ (handle_ops-Step reqs) (parse_sync-Step rest))
  parse_sync-Step (sync req_op ∷ rest) = try-Step start _ _ _ _ _ info-Step bad-Step
  parse_sync-Step (sync proc_fd ∷ seccomp_fd fd ∷ rest) =
      try-Step start _ _ _ _ _ fd-Step
        (try-Step start _ _ _ _ _ (handle_fd-Step fd) (parse_sync-Step rest))
  parse_sync-Step (sync proc_fd ∷ rest) = try-Step start _ _ _ _ _ fd-Step bad-Step
  parse_sync-Step (sync t ∷ rest) = try-Step start _ _ _ _ _ (handle-Step t) (parse_sync-Step rest)
  parse_sync-Step (generic_error e ∷ rest) = fail-Step start _ _ StartError.invalid_payload
  parse_sync-Step (_ ∷ rest) = bad-Step
