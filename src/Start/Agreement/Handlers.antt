-- ===== src/Start/Agreement/Handlers.antt =====
-- What each handler of the parent answers, and the whole loop.
use mathlib.Core.List.{append-nil}
use sysbox_runc.Prelude.{◌≡◌, refl, sym, ap, not, List, [], ◌∷◌, ◌++◌, inl}
use sysbox_runc.Start.Sync.{
  SyncType, proc_ready, proc_run, proc_hooks, proc_resume, req_op, send_op_info, op_done, proc_fd,
  send_fd, proc_fd_done, rootfs_ready, rootfs_ready_ack, OpReq, OpType, Message, sync, requests,
  seccomp_fd,
}
use sysbox_runc.Start.Calls.{
  Host, Session, M, try, when, fail, update, perform, StartError, Action, delivered, mark_created,
  mark_run, mark_resume,
}
use sysbox_runc.Start.Calls
use sysbox_runc.Start.Parent.{
  Start, run_early_hooks, set_rdt, store_state, handle_ready, register_with_sysboxfs,
  handle_rootfs_ready, handle_hooks, dispatch_op, handle_req_op, handle_ops, proc_seccomp_init,
  handle_fd, handle, parse_sync,
}
use sysbox_runc.Start.Child.{Request}
use sysbox_runc.Start.Agreement.Answers.{
  IsQuiet, Exchange, IsAnswering, try-IsQuiet, when-IsQuiet, perform-IsQuiet, perform-Exchange,
  quiet_then, then_update, exchange_then,
}

-- What a request writes, and the answers that it waits for.
unfoldable pub writes : Request → List Message
writes Request.ready = sync proc_ready ∷ []
writes Request.hooks = sync proc_hooks ∷ []
writes Request.rootfs = sync rootfs_ready ∷ []
writes (Request.ops reqs) = sync req_op ∷ requests reqs ∷ []
writes (Request.notify_fd fd) = sync proc_fd ∷ seccomp_fd fd ∷ []

unfoldable pub expects : Request → List SyncType
expects Request.ready = proc_run ∷ []
expects Request.hooks = proc_resume ∷ []
expects Request.rootfs = rootfs_ready_ack ∷ []
expects (Request.ops reqs) = send_op_info ∷ op_done ∷ []
expects (Request.notify_fd fd) = send_fd ∷ proc_fd_done ∷ []

unfoldable pub all_writes : List Request → List Message
all_writes [] = []
all_writes (r ∷ rs) = writes r ++ all_writes rs

unfoldable pub all_expects : List Request → List SyncType
all_expects [] = []
all_expects (r ∷ rs) = expects r ++ all_expects rs

module _ (host : Host) (start : Start) where
  early_hooks-IsQuiet : IsQuiet (run_early_hooks host start)
  unfolding run_early_hooks
  early_hooks-IsQuiet = when-IsQuiet start.has_hooks _ (
      try-IsQuiet _ _ (perform-IsQuiet host Action.current_oci_state refl) (
        try-IsQuiet _ _ (perform-IsQuiet host (Action.run_hooks Calls.prestart) refl)
          (perform-IsQuiet host (Action.run_hooks Calls.create_runtime) refl)))

  set_rdt-IsQuiet : IsQuiet (set_rdt host start)
  unfolding set_rdt
  set_rdt-IsQuiet = when-IsQuiet start.has_rdt _ (perform-IsQuiet host Action.rdt_set refl)

  store_state-IsQuiet : IsQuiet (store_state host start)
  unfolding store_state
  store_state-IsQuiet = record {
    silent_at = (perform-IsQuiet host Action.update_state refl).silent_at;
  }

  update-IsQuiet :
      (f : Session → Session) → ((s : Session) → (f s).calls ≡ s.calls) → IsQuiet (update f)
  update-IsQuiet f keeps = record { silent_at = λ s. ap delivered (keeps s) }

  handle_ready-Exchange : Exchange (handle_ready host start) proc_run
  unfolding handle_ready
  handle_ready-Exchange = quiet_then _ _ proc_run (perform-IsQuiet host Action.set_rlimits refl) (
      quiet_then _ _ proc_run
        (when-IsQuiet (not start.has_mount_ns) _
          (try-IsQuiet _ _ set_rdt-IsQuiet early_hooks-IsQuiet))
        (quiet_then _ _ proc_run (update-IsQuiet mark_created (λ s. refl)) (
          quiet_then _ _ proc_run store_state-IsQuiet
            (then_update _ proc_run mark_run (λ s. refl) (perform-Exchange host proc_run)))))

  handle_hooks-Exchange : Exchange (handle_hooks host start) proc_resume
  unfolding handle_hooks
  handle_hooks-Exchange = quiet_then _ _ proc_resume set_rdt-IsQuiet (
      quiet_then _ _ proc_resume early_hooks-IsQuiet
        (then_update _ proc_resume mark_resume (λ s. refl) (perform-Exchange host proc_resume)))

  handle_rootfs-Exchange : Exchange (handle_rootfs_ready host start) rootfs_ready_ack
  unfolding handle_rootfs_ready register_with_sysboxfs
  handle_rootfs-Exchange =
      quiet_then _ _ rootfs_ready_ack
        (when-IsQuiet start.is_cgroup_v2 _ (
          try-IsQuiet _ _ (perform-IsQuiet host Action.create_child_cgroup refl)
            (perform-IsQuiet host Action.apply_child_cgroup refl)))
        (quiet_then _ _ rootfs_ready_ack
          (when-IsQuiet start.fs_enabled _ (perform-IsQuiet host Action.fs_register refl))
          (perform-Exchange host rootfs_ready_ack))

  dispatch_op-IsQuiet : (op : OpType) (reqs : List OpReq) → IsQuiet (dispatch_op host start op reqs)
  unfolding dispatch_op
  dispatch_op-IsQuiet OpType.other_op reqs = record { silent_at = λ s. refl }
  dispatch_op-IsQuiet op reqs = perform-IsQuiet host (Action.handle_op op reqs) refl

  handle_req_op-IsQuiet : (reqs : List OpReq) → IsQuiet (handle_req_op host start reqs)
  unfolding handle_req_op
  handle_req_op-IsQuiet [] = record { silent_at = λ s. refl }
  handle_req_op-IsQuiet (req ∷ reqs) = dispatch_op-IsQuiet req.op (req ∷ reqs)

  handle_ops-Exchange : (reqs : List OpReq) → Exchange (handle_ops host start reqs) op_done
  unfolding handle_ops
  handle_ops-Exchange reqs =
      quiet_then _ _ op_done (handle_req_op-IsQuiet reqs) (perform-Exchange host op_done)

  handle_fd-Exchange : (fd : _) → Exchange (handle_fd host start fd) proc_fd_done
  unfolding handle_fd proc_seccomp_init
  handle_fd-Exchange fd =
      quiet_then _ _ proc_fd_done
        (when-IsQuiet start.fs_enabled _ (perform-IsQuiet host (Action.send_seccomp_init fd) refl))
        (perform-Exchange host proc_fd_done)

  -- The loop over what the requests of a child write answers what they wait for, and breaks off with
  -- an error if a step fails.
  pub parse_sync-IsAnswering :
      (rs : List Request) → IsAnswering (parse_sync host start (all_writes rs)) (all_expects rs)
  unfolding parse_sync all_writes writes all_expects expects handle
  parse_sync-IsAnswering [] = record {
    answers_at = λ s. ([], (sym (append-nil (delivered s.calls)), inl (refl, refl)));
  }
  parse_sync-IsAnswering (Request.ready ∷ rs) =
      exchange_then _ _ proc_run _ handle_ready-Exchange (parse_sync-IsAnswering rs)
  parse_sync-IsAnswering (Request.hooks ∷ rs) =
      exchange_then _ _ proc_resume _ handle_hooks-Exchange (parse_sync-IsAnswering rs)
  parse_sync-IsAnswering (Request.rootfs ∷ rs) =
      exchange_then _ _ rootfs_ready_ack _ handle_rootfs-Exchange (parse_sync-IsAnswering rs)
  parse_sync-IsAnswering (Request.ops reqs ∷ rs) =
      exchange_then _ _ send_op_info _ (perform-Exchange host send_op_info)
        (exchange_then _ _ op_done _ (handle_ops-Exchange reqs) (parse_sync-IsAnswering rs))
  parse_sync-IsAnswering (Request.notify_fd fd ∷ rs) =
      exchange_then _ _ send_fd _ (perform-Exchange host send_fd)
        (exchange_then _ _ proc_fd_done _ (handle_fd-Exchange fd) (parse_sync-IsAnswering rs))
