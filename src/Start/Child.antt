-- ===== src/Start/Child.antt =====
-- The side of the init process: `readSync` and `writeSync` of libcontainer/sync.go and the functions
-- syncParent... of libcontainer/init_linux.go.
use sysbox_runc.Prelude.{ℕ, Option, none, some, List, [], ◌∷◌, ◌++◌, String, if◌then◌else◌, ◌==◌}
use sysbox_runc.Start.Sync.{
  SyncType, sync_eq, proc_error, proc_ready, proc_run, proc_hooks, proc_resume, req_op,
  send_op_info, op_done, proc_fd, send_fd, proc_fd_done, rootfs_ready, rootfs_ready_ack, OpReq,
  Message, sync, generic_error, requests, seccomp_fd,
}

pub data ChildError : Type 0 where
  closed decode unexpected : ChildError
  from_parent write_failed : String → ChildError

-- What the parent has written and is not read yet, and what was written.
pub record Pipe : Type 0 where
  pub answers : List Message
  pub sent : List Message

abbrev pub C : Type 0
C = Pipe → Option ChildError × Pipe

abbrev pub and_then : C → C → C
and_then m k p = let (e, p') = m p in elim e [ none ↦ k p' | some err ↦ (some err, p') ]

-- `readSync`: the end of the answers is a closed pipe.
abbrev read_answer : SyncType → List Message → Option ChildError × List Message
read_answer expected [] = (some ChildError.closed, [])
read_answer expected (sync proc_error ∷ generic_error e ∷ rest) =
    (some (ChildError.from_parent e), rest)
read_answer expected (sync proc_error ∷ sync t ∷ rest) = (some (ChildError.from_parent ""), rest)
read_answer expected (sync proc_error ∷ rest) = (some ChildError.decode, rest)
read_answer expected (sync t ∷ rest) =
    if t == expected then (none, rest) else (some ChildError.unexpected, rest)
read_answer expected (generic_error e ∷ rest) = (some ChildError.unexpected, rest)
read_answer expected (_ ∷ rest) = (some ChildError.decode, rest)

unfoldable pub read_sync : SyncType → C
read_sync expected p =
    let (e, rest) = read_answer expected p.answers in (e, record p { answers = rest })

-- What the child asks for.
pub data Request : Type 0 where
  ready hooks rootfs : Request
  ops : List OpReq → Request
  notify_fd : ℕ → Request

-- `refuse` is the error of a write, from what was written before.
module _ (refuse : List Message → Message → Option String) where
  abbrev add_sent : Message → Pipe → Pipe
  add_sent m p = record p { sent = p.sent ++ m ∷ [] }

  unfoldable pub write_json : Message → C
  write_json m p = elim (refuse p.sent m) [
    | none ↦ (none, add_sent m p)
    | some e ↦ (some (ChildError.write_failed e), p)
  ]

  unfoldable pub write_sync : SyncType → C
  write_sync t = write_json (sync t)

  unfoldable pub sync_parent_ready : C
  sync_parent_ready = and_then (write_sync proc_ready) (read_sync proc_run)

  unfoldable pub sync_parent_hooks : C
  sync_parent_hooks = and_then (write_sync proc_hooks) (read_sync proc_resume)

  unfoldable pub sync_parent_do_op : List OpReq → C
  sync_parent_do_op reqs = and_then (write_sync req_op) (
      and_then (read_sync send_op_info) (and_then (write_json (requests reqs)) (read_sync op_done)))

  unfoldable pub sync_parent_seccomp_fd : ℕ → C
  sync_parent_seccomp_fd fd = and_then (write_sync proc_fd) (
      and_then (read_sync send_fd) (and_then (write_json (seccomp_fd fd)) (read_sync proc_fd_done)))

  unfoldable pub sync_parent_rootfs_ready : C
  sync_parent_rootfs_ready = and_then (write_sync rootfs_ready) (read_sync rootfs_ready_ack)

  unfoldable pub sync_parent : Request → C
  sync_parent Request.ready = sync_parent_ready
  sync_parent Request.hooks = sync_parent_hooks
  sync_parent Request.rootfs = sync_parent_rootfs_ready
  sync_parent (Request.ops reqs) = sync_parent_do_op reqs
  sync_parent (Request.notify_fd fd) = sync_parent_seccomp_fd fd

  -- The requests of an init process, up to the first error.
  unfoldable pub run_requests : List Request → C
  run_requests [] p = (none, p)
  run_requests (r ∷ rs) p = and_then (sync_parent r) (run_requests rs) p
