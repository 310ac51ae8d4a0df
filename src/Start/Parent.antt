-- ===== src/Start/Parent.antt =====
-- `initProcess.start` of libcontainer/process_linux.go with `parseSync` of sync.go and `handleReqOp` of
-- container_linux.go.
use sysbox_runc.Prelude.{
  ℕ, ◌≡◌, Bool, false, not, ◌&&◌, Option, none, some, List, [], ◌∷◌, if◌then◌else◌,
}
use sysbox_runc.Start.Sync.{
  SyncType, proc_error, proc_ready, proc_run, proc_hooks, proc_resume, req_op, send_op_info,
  op_done, proc_fd, send_fd, proc_fd_done, rootfs_ready, rootfs_ready_ack, OpType, other_op, OpReq,
  Message, sync, generic_error, requests, seccomp_fd,
}
use sysbox_runc.Start.Calls.{
  Host, Session, M, try, done, fail, when, update, perform, perform_, is_panic, StartError, Action,
  mark_created, mark_run, mark_resume,
}
use sysbox_runc.Start.Calls

-- What the start reads of the process and its configuration. `private_cgroup_ns` is a cgroup namespace
-- without a path.
pub record Start : Type 0 where
  pub has_mount_ns : Bool
  pub has_hooks : Bool
  pub has_rdt : Bool
  pub private_cgroup_ns : Bool
  pub is_cgroup_v2 : Bool
  pub fs_enabled : Bool
  pub share_pid_ns : Bool

module _ (host : Host) (start : Start) where
  -- The hooks of the two messages, with the state that they are given.
  unfoldable pub run_early_hooks : M
  run_early_hooks = when start.has_hooks (
      try (perform host Action.current_oci_state) (
        try (perform host (Action.run_hooks Calls.prestart))
          (perform host (Action.run_hooks Calls.create_runtime))))

  unfoldable pub set_rdt : M
  set_rdt = when start.has_rdt (perform host Action.rdt_set)

  -- `updateState`, whose error is replaced by one that is built of nil.
  abbrev drop_cause : Option StartError → Option StartError
  drop_cause none = none
  drop_cause (some e) = some (StartError.no_cause Action.update_state)

  unfoldable pub store_state : M
  store_state s = let (e, s') = perform host Action.update_state s in (drop_cause e, s')

  unfoldable pub handle_ready : M
  handle_ready = try (perform host Action.set_rlimits) (
      try (when (not start.has_mount_ns) (try set_rdt run_early_hooks)) (
        try (update mark_created)
          (try store_state (try (perform host (Action.write proc_run)) (update mark_run)))))

  unfoldable pub register_with_sysboxfs : M
  register_with_sysboxfs = when start.fs_enabled (perform host Action.fs_register)

  unfoldable pub handle_rootfs_ready : M
  handle_rootfs_ready =
      try
        (when start.is_cgroup_v2
          (try (perform host Action.create_child_cgroup) (perform host Action.apply_child_cgroup)))
        (try register_with_sysboxfs (perform host (Action.write rootfs_ready_ack)))

  unfoldable pub handle_hooks : M
  handle_hooks =
      try set_rdt
        (try run_early_hooks (try (perform host (Action.write proc_resume)) (update mark_resume)))

  -- The operation of the first request is that of all.
  unfoldable pub dispatch_op : OpType → List OpReq → M
  dispatch_op other_op reqs = fail StartError.invalid_request
  dispatch_op op reqs = perform host (Action.handle_op op reqs)

  unfoldable pub handle_req_op : List OpReq → M
  handle_req_op [] = fail StartError.no_requests
  handle_req_op (req ∷ reqs) = dispatch_op req.op (req ∷ reqs)

  unfoldable pub handle_ops : List OpReq → M
  handle_ops reqs = try (handle_req_op reqs) (perform host (Action.write op_done))

  unfoldable pub proc_seccomp_init : ℕ → M
  proc_seccomp_init fd = when start.fs_enabled (perform host (Action.send_seccomp_init fd))

  unfoldable pub handle_fd : ℕ → M
  handle_fd fd = try (proc_seccomp_init fd) (perform host (Action.write proc_fd_done))

  -- The messages that are handled without a payload.
  unfoldable pub handle : SyncType → M
  handle proc_ready = handle_ready
  handle rootfs_ready = handle_rootfs_ready
  handle proc_hooks = handle_hooks
  handle _ = fail StartError.invalid_payload

  -- After `procError` the stream has the error; its end is a panic. A `syncT` decodes to an empty one.
  abbrev pub remote_error : List Message → M
  remote_error [] = fail StartError.panicked
  remote_error (generic_error e ∷ rest) = fail (StartError.remote e)
  remote_error (sync t ∷ rest) = fail (StartError.remote "")
  remote_error (_ ∷ rest) = fail StartError.bad_message

  -- The loop over what the child writes, up to the end of the stream. A `genericError` decodes to a
  -- `syncT` without a type.
  unfoldable pub parse_sync : List Message → M
  parse_sync [] = done
  parse_sync (sync proc_error ∷ rest) = remote_error rest
  parse_sync (sync req_op ∷ requests reqs ∷ rest) =
      try (perform host (Action.write send_op_info)) (try (handle_ops reqs) (parse_sync rest))
  parse_sync (sync req_op ∷ rest) =
      try (perform host (Action.write send_op_info)) (fail StartError.bad_message)
  parse_sync (sync proc_fd ∷ seccomp_fd fd ∷ rest) =
      try (perform host (Action.write send_fd)) (try (handle_fd fd) (parse_sync rest))
  parse_sync (sync proc_fd ∷ rest) =
      try (perform host (Action.write send_fd)) (fail StartError.bad_message)
  parse_sync (sync t ∷ rest) = try (handle t) (parse_sync rest)
  parse_sync (generic_error e ∷ rest) = fail StartError.invalid_payload
  parse_sync (_ ∷ rest) = fail StartError.bad_message

  -- `initProcess.wait`
  unfoldable pub wait_process : M
  wait_process s =
      try (perform_ host Action.wait) (when start.share_pid_ns (perform_ host Action.signal_all)) s

  abbrev pub init_error : Option StartError → StartError
  init_error none = StartError.container_init_nil
  init_error (some e) = StartError.container_init e

  -- `if ierr != nil`
  abbrev pub wait_and_fail : Option StartError → M
  wait_and_fail none = done
  wait_and_fail (some e) = try wait_process (fail e)

  -- What follows the loop.
  unfoldable pub after_sync : Option StartError → M
  after_sync ierr s =
      if not s.sent_run
      then (some (init_error ierr), s)
      else if start.has_mount_ns && not s.sent_resume
      then (some StartError.not_resumed, s)
      else try (perform host Action.shutdown) (wait_and_fail ierr) s

  unfoldable pub sync_with_child : List Message → M
  sync_with_child inbox s =
      let (ierr, s') = parse_sync inbox s in
      if is_panic ierr then (ierr, s') else after_sync ierr s'

  -- The steps before the child has its configuration.
  unfoldable pub prepare_cgroups : M
  prepare_cgroups = try (perform host Action.cgroup_apply) (
      try (perform host Action.cgroup_set) (
        try (when (not start.is_cgroup_v2) (perform host Action.create_child_cgroup)) (
          try (perform host Action.setup_dev_subdir)
            (when start.has_rdt (perform host Action.rdt_apply)))))

  unfoldable pub bootstrap_child : M
  bootstrap_child = try (perform host Action.copy_bootstrap) (
      try (perform host Action.get_child_pid) (
        try (perform host Action.get_pipe_fds) (
          try (when (not start.is_cgroup_v2) (perform host Action.apply_child_cgroup)) (
            try (when start.has_rdt (perform host Action.rdt_apply_child))
              (when start.private_cgroup_ns (perform host Action.write_create_cgroupns))))))

  unfoldable pub configure_child : M
  configure_child = try (perform host Action.wait_first_child) (
      try (perform host Action.create_network)
        (try (perform host Action.update_spec_state) (perform host Action.send_config)))

  unfoldable pub run_started : List Message → M
  run_started inbox =
      try prepare_cgroups (try bootstrap_child (try configure_child (sync_with_child inbox)))

  -- What the deferred function does after an error; its own errors are logged.
  unfoldable pub clean_up : M
  clean_up = try (perform_ host Action.kill) (
      try wait_process (
        try (perform_ host Action.cgroup_destroy)
          (when start.has_rdt (perform_ host Action.rdt_destroy))))

  -- The deferred function. In a panic the result is still nil, so nothing is done.
  abbrev pub or_clean_up : M → M
  or_clean_up m s =
      let (e, s') = m s in
      if is_panic e
      then (e, s')
      else elim e [ none ↦ (none, s') | some err ↦ try clean_up (fail err) s' ]

  pub or_clean_up_error :
      (m : M) (s : Session) (e : StartError)
      → (m s).0 ≡ some e
      → is_panic (m s).0 ≡ false
      → or_clean_up m s ≡ try clean_up (fail e) (m s).1
  or_clean_up_error m s e failed regular = rw (or_clean_up, regular, failed)

  unfoldable pub start_init : List Message → M
  start_init inbox = try (perform host Action.cmd_start) (or_clean_up (run_started inbox))
