-- ===== src/Start/Agreement/Replies.antt =====
-- What the child makes of the answers.
use mathlib.Core.List.{append_assoc}
use sysbox_runc.Prelude.{
  ℕ, ◌≡◌, ◌∙◌, sym, ap, subst, Option, none, some, List, [], ◌∷◌, ◌++◌, String, map,
}
use sysbox_runc.Start.Sync.{
  SyncType, sync_eq, proc_ready, proc_run, proc_hooks, proc_resume, req_op, send_op_info, op_done,
  proc_fd, send_fd, proc_fd_done, rootfs_ready, rootfs_ready_ack, OpReq, Message, sync, requests,
  seccomp_fd,
}
use sysbox_runc.Start.Child.{
  ChildError, Pipe, C, and_then, Request, read_sync, write_json, write_sync, sync_parent_ready,
  sync_parent_hooks, sync_parent_do_op, sync_parent_seccomp_fd, sync_parent_rootfs_ready,
  sync_parent,
}
use sysbox_runc.Start.Agreement.Answers.{IsCut}
use sysbox_runc.Start.Agreement.Handlers.{writes, expects}

abbrev pub pipe : List Message → List Message → Pipe
pipe answers sent = record { answers = answers; sent = sent }

pub and_then_ok : (m k : C) (p p' : Pipe) → m p ≡ (none, p') → and_then m k p ≡ k p'
and_then_ok m k p p' h =
    ap (λ (r : Option ChildError × Pipe). elim r.0 [ none ↦ k r.1 | some err ↦ (some err, r.1) ]) h

module _ (refuse : List Message → Message → Option String)
    (free : (sent : List Message) (m : Message) → refuse sent m ≡ none) where
  write_free :
      (m : Message) (p : Pipe) (k : C)
      → and_then (write_json refuse m) k p ≡ k (pipe p.answers (p.sent ++ m ∷ []))
  unfolding write_json
  write_free m p k =
      and_then_ok (write_json refuse m) k p (pipe p.answers (p.sent ++ m ∷ []))
        (rw (write_json, free p.sent m))

  abbrev after_op : List OpReq → C
  after_op reqs =
      and_then (read_sync send_op_info)
        (and_then (write_json refuse (requests reqs)) (read_sync op_done))

  abbrev after_fd : ℕ → C
  after_fd fd =
      and_then (read_sync send_fd)
        (and_then (write_json refuse (seccomp_fd fd)) (read_sync proc_fd_done))

  twice_sent :
      (sent : List Message) (a b : Message) → (sent ++ a ∷ []) ++ b ∷ [] ≡ sent ++ a ∷ b ∷ []
  twice_sent sent a b = append_assoc sent (a ∷ []) (b ∷ [])

  pub sync_parent_answered :
      (r : Request) (rest sent : List Message)
      → sync_parent refuse r (pipe (map sync (expects r) ++ rest) sent)
        ≡ (none, pipe rest (sent ++ writes r))
  unfolding sync_parent sync_parent_ready sync_parent_hooks sync_parent_do_op sync_parent_seccomp_fd
      sync_parent_rootfs_ready expects writes read_sync write_sync
  sync_parent_answered Request.ready rest sent = write_free (sync proc_ready) _ (read_sync proc_run)
  sync_parent_answered Request.hooks rest sent =
      write_free (sync proc_hooks) _ (read_sync proc_resume)
  sync_parent_answered Request.rootfs rest sent =
      write_free (sync rootfs_ready) _ (read_sync rootfs_ready_ack)
  sync_parent_answered (Request.ops reqs) rest sent =
      write_free (sync req_op) _ (after_op reqs)
      ∙ write_free (requests reqs) (pipe (sync op_done ∷ rest) (sent ++ sync req_op ∷ []))
          (read_sync op_done)
      ∙ ap (λ c. (none, pipe rest c)) (twice_sent sent (sync req_op) (requests reqs))
  sync_parent_answered (Request.notify_fd fd) rest sent =
      write_free (sync proc_fd) _ (after_fd fd)
      ∙ write_free (seccomp_fd fd) (pipe (sync proc_fd_done ∷ rest) (sent ++ sync proc_fd ∷ []))
          (read_sync proc_fd_done)
      ∙ ap (λ c. (none, pipe rest c)) (twice_sent sent (sync proc_fd) (seccomp_fd fd))

  abbrev Fails : C → Pipe → Type 0
  Fails m p = (m p).0 ≡ some ChildError.closed

  pub sync_parent_cut :
      (r : Request) (w : List SyncType) (sent : List Message)
      → IsCut w (expects r)
      → Fails (sync_parent refuse r) (pipe (map sync w) sent)
  unfolding sync_parent sync_parent_ready sync_parent_hooks sync_parent_do_op sync_parent_seccomp_fd
      sync_parent_rootfs_ready expects writes read_sync write_sync
  sync_parent_cut Request.ready [] sent cut =
      ap (λ r. r.0) (write_free (sync proc_ready) _ (read_sync proc_run))
  sync_parent_cut Request.hooks [] sent cut =
      ap (λ r. r.0) (write_free (sync proc_hooks) _ (read_sync proc_resume))
  sync_parent_cut Request.rootfs [] sent cut =
      ap (λ r. r.0) (write_free (sync rootfs_ready) _ (read_sync rootfs_ready_ack))
  sync_parent_cut (Request.ops reqs) [] sent cut =
      ap (λ r. r.0) (write_free (sync req_op) _ (after_op reqs))
  sync_parent_cut (Request.notify_fd fd) [] sent cut =
      ap (λ r. r.0) (write_free (sync proc_fd) _ (after_fd fd))
  sync_parent_cut Request.ready (x ∷ w) sent cut = absurd cut.1
  sync_parent_cut Request.hooks (x ∷ w) sent cut = absurd cut.1
  sync_parent_cut Request.rootfs (x ∷ w) sent cut = absurd cut.1
  sync_parent_cut (Request.ops reqs) (x ∷ []) sent cut =
      subst (λ y. Fails (sync_parent refuse (Request.ops reqs)) (pipe (sync y ∷ []) sent))
        (sym cut.0)
        (ap (λ r. r.0) (write_free (sync req_op) _ (after_op reqs))
          ∙ ap (λ r. r.0)
              (write_free (requests reqs) (pipe [] (sent ++ sync req_op ∷ [])) (read_sync op_done)))
  sync_parent_cut (Request.notify_fd fd) (x ∷ []) sent cut =
      subst (λ y. Fails (sync_parent refuse (Request.notify_fd fd)) (pipe (sync y ∷ []) sent))
        (sym cut.0)
        (ap (λ r. r.0) (write_free (sync proc_fd) _ (after_fd fd))
          ∙ ap (λ r. r.0)
              (write_free (seccomp_fd fd) (pipe [] (sent ++ sync proc_fd ∷ []))
                (read_sync proc_fd_done)))
  sync_parent_cut (Request.ops reqs) (x ∷ y ∷ w) sent cut = absurd cut.1.1
  sync_parent_cut (Request.notify_fd fd) (x ∷ y ∷ w) sent cut = absurd cut.1.1
