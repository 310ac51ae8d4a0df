-- ===== src/Start/Panics/Reason.antt =====
-- What the init process has written when the parent panics.
use sysbox_runc.Prelude.{
  ◌≡◌, refl, ap, true, Option, List, [], ◌∷◌, ◌++◌, inl, inr, if◌then◌else◌, Bool-cases,
}
use sysbox_runc.Start.Sync.{
  proc_error, req_op, send_op_info, proc_fd, send_fd, Message, sync, generic_error, requests,
  seccomp_fd,
}
use sysbox_runc.Start.Calls.{Host, Session, M, is_panic, StartError, Action}
use sysbox_runc.Start.Parent.{
  Start, parse_sync, remote_error, after_sync, sync_with_child, run_started,
}
use sysbox_runc.Start.Panics.{
  PanicsOnly, try-PanicsOnly, done-PanicsOnly, fail-PanicsOnly, calls-PanicsOnly, handle-PanicsOnly,
  handle_ops-PanicsOnly, handle_fd-PanicsOnly, bad-PanicsOnly, prepare-PanicsOnly,
  bootstrap-PanicsOnly, configure-PanicsOnly, after_sync-PanicsOnly,
}

-- The last message is an error without its text.
abbrev pub EndsInError : List Message → Type 0
EndsInError inbox = (before : List Message) × (inbox ≡ before ++ sync proc_error ∷ [])

behind-EndsInError : (x : Message) (rest : List Message) → EndsInError rest → EndsInError (x ∷ rest)
behind-EndsInError x rest (before, shape) = (x ∷ before, ap (λ l. x ∷ l) shape)

module _ (host : Host) (start : Start) where
  later-PanicsOnly :
      (x : Message) (rest : List Message) (m : M)
      → PanicsOnly (EndsInError rest) m
      → PanicsOnly (EndsInError (x ∷ rest)) m
  later-PanicsOnly x rest m reason = record {
    because = λ s panic. behind-EndsInError x rest (reason.because s panic);
  }

  remote_error-PanicsOnly :
      (rest : List Message)
      → PanicsOnly (EndsInError (sync proc_error ∷ rest)) (remote_error host start rest)
  remote_error-PanicsOnly [] = record { because = λ s panic. ([], refl) }
  remote_error-PanicsOnly (generic_error e ∷ rest) =
      fail-PanicsOnly _ host start (StartError.remote e) refl
  remote_error-PanicsOnly (sync t ∷ rest) = fail-PanicsOnly _ host start (StartError.remote "") refl
  remote_error-PanicsOnly (_ ∷ rest) = bad-PanicsOnly _ host start

  parse_sync-PanicsOnly :
      (inbox : List Message) → PanicsOnly (EndsInError inbox) (parse_sync host start inbox)
  unfolding parse_sync
  parse_sync-PanicsOnly [] = done-PanicsOnly _ host start
  parse_sync-PanicsOnly (sync proc_error ∷ rest) = remote_error-PanicsOnly rest
  parse_sync-PanicsOnly (sync req_op ∷ requests reqs ∷ rest) =
      calls-PanicsOnly _ host start (Action.write send_op_info) _ (
        try-PanicsOnly _ host start _ _ (handle_ops-PanicsOnly _ host start reqs) (
          later-PanicsOnly (sync req_op) _ _
            (later-PanicsOnly (requests reqs) rest _ (parse_sync-PanicsOnly rest))))
  parse_sync-PanicsOnly (sync req_op ∷ rest) =
      calls-PanicsOnly _ host start (Action.write send_op_info) _ (bad-PanicsOnly _ host start)
  parse_sync-PanicsOnly (sync proc_fd ∷ seccomp_fd fd ∷ rest) =
      calls-PanicsOnly _ host start (Action.write send_fd) _ (
        try-PanicsOnly _ host start _ _ (handle_fd-PanicsOnly _ host start fd) (
          later-PanicsOnly (sync proc_fd) _ _
            (later-PanicsOnly (seccomp_fd fd) rest _ (parse_sync-PanicsOnly rest))))
  parse_sync-PanicsOnly (sync proc_fd ∷ rest) =
      calls-PanicsOnly _ host start (Action.write send_fd) _ (bad-PanicsOnly _ host start)
  parse_sync-PanicsOnly (sync t ∷ rest) =
      try-PanicsOnly _ host start _ _ (handle-PanicsOnly _ host start t)
        (later-PanicsOnly (sync t) rest _ (parse_sync-PanicsOnly rest))
  parse_sync-PanicsOnly (generic_error e ∷ rest) =
      fail-PanicsOnly _ host start StartError.invalid_payload refl
  parse_sync-PanicsOnly (_ ∷ rest) = bad-PanicsOnly _ host start

  sync_with_child-PanicsOnly :
      (inbox : List Message) → PanicsOnly (EndsInError inbox) (sync_with_child host start inbox)
  unfolding sync_with_child
  sync_with_child-PanicsOnly inbox = record {
    because = λ s.
        by_panic (parse_sync host start inbox s).0 (parse_sync host start inbox s).1
          (λ panic. (parse_sync-PanicsOnly inbox).because s panic);
  }
    where
      by_panic :
          (ierr : Option StartError) (s' : Session)
          → (is_panic ierr ≡ true → EndsInError inbox)
          → is_panic (if is_panic ierr then (ierr, s') else after_sync host start ierr s').0 ≡ true
          → EndsInError inbox
      by_panic ierr s' reason = elim (Bool-cases (is_panic ierr)) [
        | inl panicked ↦ λ panic. reason panicked
        | inr regular ↦ rw regular (λ panic.
            (after_sync-PanicsOnly (EndsInError inbox) host start ierr regular).because s' panic)
      ]

  pub run_started-PanicsOnly :
      (inbox : List Message) → PanicsOnly (EndsInError inbox) (run_started host start inbox)
  unfolding run_started
  run_started-PanicsOnly inbox = try-PanicsOnly _ host start _ _ (prepare-PanicsOnly _ host start) (
      try-PanicsOnly _ host start _ _ (bootstrap-PanicsOnly _ host start) (
        try-PanicsOnly _ host start _ _ (configure-PanicsOnly _ host start)
          (sync_with_child-PanicsOnly inbox)))
