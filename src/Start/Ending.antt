-- ===== src/Start/Ending.antt =====
-- How the start of a container ends.
use sysbox_runc.Prelude.{
  ◌≡◌, ◌∙◌, refl, sym, ap, subst, arith, true, not, ◌&&◌, ◌||◌, Option, none, some, List, [], ◌∷◌,
  ◌++◌, map, inl, inr, ◌⊎◌, if◌then◌else◌, Option-cases, Bool-cases,
}
use sysbox_runc.Start.Sync.{Message}
use sysbox_runc.Start.Calls.{
  Host, Session, M, try, try_ok, try_error, fail, perform, perform_, is_panic, StartError, Action,
  Entry,
}
use sysbox_runc.Start.Parent.{
  Start, wait_process, after_sync, init_error, wait_and_fail, sync_with_child, parse_sync,
  prepare_cgroups, bootstrap_child, configure_child, run_started, clean_up, or_clean_up,
  or_clean_up_error, start_init,
}
use sysbox_runc.Start.Panics.Reason.{EndsInError, run_started-PanicsOnly}

abbrev pub action_list : List Entry → List Action
action_list calls = map (λ (c : Entry). c.0) calls

-- The calls of the deferred function, the last one first.
abbrev pub cleaned : Start → List Action
cleaned start =
    (if start.has_rdt then Action.rdt_destroy ∷ [] else [])
    ++ Action.cgroup_destroy ∷ (if start.share_pid_ns then Action.signal_all ∷ [] else [])
    ++ Action.wait ∷ Action.kill ∷ []

-- Both answers that the start waits for were written.
abbrev pub IsSynced : Start → Session → Type 0
IsSynced start s = (s.sent_run ≡ true) × ((not start.has_mount_ns || s.sent_resume) ≡ true)

module _ (host : Host) (start : Start) where
  clean_up-action_list :
      (s : Session)
      → ((clean_up host start s).0 ≡ none)
        × (action_list (clean_up host start s).1.calls ≡ cleaned start ++ action_list s.calls)
  unfolding clean_up wait_process perform_
  clean_up-action_list s = elim (Bool-cases start.share_pid_ns) [
    | inl shared ↦ elim (Bool-cases start.has_rdt) [
      | inl rdt ↦ rw (shared, rdt) (refl, refl)
      | inr no_rdt ↦ rw (shared, no_rdt) (refl, refl)
    ]
    | inr own ↦ elim (Bool-cases start.has_rdt) [
      | inl rdt ↦ rw (own, rdt) (refl, refl)
      | inr no_rdt ↦ rw (own, no_rdt) (refl, refl)
    ]
  ]

  -- A chain that succeeds ends as its second part.
  try_fine :
      (m k : M) (s : Session) → (try m k s).0 ≡ none → ((m s).0 ≡ none) × (try m k s ≡ k (m s).1)
  try_fine m k s h = elim (Option-cases (m s).0) [
    | inl fine ↦ (fine, try_ok m k s fine)
    | inr (e, failed) ↦
        let clash : some e ≡ none = sym (ap (λ o. o.0) (try_error m k s e failed)) ∙ h in
        ground arith
  ]

  -- A start succeeds only if the loop had no error and both answers were written.
  abbrev Synced : M → Type 0
  Synced m = (s : Session) → (m s).0 ≡ none → IsSynced start (m s).1

  wait_and_fail-none :
      (ierr : Option StartError) (s : Session)
      → (wait_and_fail host start ierr s).0 ≡ none
      → wait_and_fail host start ierr s ≡ (none, s)
  wait_and_fail-none none s fine = refl
  wait_and_fail-none (some e) s fine =
      let (waited, run) = try_fine (wait_process host start) (fail e) s fine in
      let clash : none ≡ some e = sym fine ∙ ap (λ o. o.0) run in ground arith

  after_sync-Synced : (ierr : Option StartError) → Synced (after_sync host start ierr)
  unfolding after_sync perform
  after_sync-Synced ierr s fine = elim (Bool-cases s.sent_run) [
    | inr unsent ↦
        let clash : some (init_error host start ierr) ≡ none = rw (after_sync, unsent) at fine in
        ground arith
    | inl sent ↦ elim (Bool-cases (start.has_mount_ns && not s.sent_resume)) [
      | inl waiting ↦
          let clash : some StartError.not_resumed ≡ none = rw (after_sync, sent, waiting) at fine in
          ground arith
      | inr resumed ↦
          let shape : after_sync host start ierr s
              ≡ try (perform host Action.shutdown) (wait_and_fail host start ierr) s =
            rw (after_sync, sent, resumed) in
          let (shut, run) =
            try_fine (perform host Action.shutdown) (wait_and_fail host start ierr) s
              (sym (ap (λ o. o.0) shape) ∙ fine) in
          let s1 = (perform host Action.shutdown s).1 in
          let ended : after_sync host start ierr s ≡ (none, s1) =
            shape ∙ run ∙ wait_and_fail-none ierr s1 (sym (ap (λ o. o.0) (shape ∙ run)) ∙ fine) in
          (
            ap (λ o. o.1.sent_run) ended ∙ same_run s ∙ sent,
            ap (λ o. not start.has_mount_ns || o.1.sent_resume) ended
                ∙ ap (λ b. not start.has_mount_ns || b) (same_resume s)
                ∙ ground arith,
          )
    ]
  ]
    where
      same_run : (s : Session) → (perform host Action.shutdown s).1.sent_run ≡ s.sent_run
      same_run s = refl

      same_resume : (s : Session) → (perform host Action.shutdown s).1.sent_resume ≡ s.sent_resume
      same_resume s = refl

  later-Synced : (m k : M) → Synced k → Synced (try m k)
  later-Synced m k synced s fine =
      let (first, run) = try_fine m k s fine in
      subst (λ o. IsSynced start o.1) (sym run) (synced (m s).1 (sym (ap (λ o. o.0) run) ∙ fine))

  sync_with_child-Synced : (inbox : List Message) → Synced (sync_with_child host start inbox)
  unfolding sync_with_child
  sync_with_child-Synced inbox s =
      by_panic (parse_sync host start inbox s).0 (parse_sync host start inbox s).1
    where
      by_panic :
          (ierr : Option StartError) (s' : Session)
          → (if is_panic ierr then (ierr, s') else after_sync host start ierr s').0 ≡ none
          → IsSynced start (if is_panic ierr then (ierr, s') else after_sync host start ierr s').1
      by_panic ierr s' = elim (Bool-cases (is_panic ierr)) [
        | inl panic ↦ λ fine.
            let no_error : ierr ≡ none = rw panic at fine in
            let clash : is_panic none ≡ true = sym (ap is_panic no_error) ∙ panic in ground arith
        | inr regular ↦ rw regular (after_sync-Synced ierr s')
      ]

  run_started-Synced : (inbox : List Message) → Synced (run_started host start inbox)
  unfolding run_started
  run_started-Synced inbox =
      let configured = try (configure_child host start) (sync_with_child host start inbox) in
      later-Synced (prepare_cgroups host start) (try (bootstrap_child host start) configured) (
        later-Synced (bootstrap_child host start) configured (
          later-Synced (configure_child host start) (sync_with_child host start inbox)
            (sync_with_child-Synced inbox)))

  -- After an error of what it guards, the deferred function has run.
  or_clean_up-ended :
      (m : M) (s : Session)
      → Synced m
      → (((or_clean_up host start m s).0 ≡ none) × IsSynced start (or_clean_up host start m s).1)
        ⊎ ((e : StartError) × (((or_clean_up host start m s).0 ≡ some e)
              × (((e ≡ StartError.panicked) × (is_panic (m s).0 ≡ true))
                  ⊎ (action_list (or_clean_up host start m s).1.calls
                      ≡ cleaned start ++ action_list (m s).1.calls))))
  or_clean_up-ended m s synced = elim (Option-cases (m s).0) [
    | inl fine ↦
        let shape : or_clean_up host start m s ≡ (none, (m s).1) = rw (or_clean_up, fine) in
        inl (ap (λ o. o.0) shape, subst (λ o. IsSynced start o.1) (sym shape) (synced s fine))
    | inr (e, failed) ↦ elim (Bool-cases (is_panic (m s).0)) [
      | inl panic ↦
          let is_same : is_panic (some e) ≡ true = sym (ap is_panic failed) ∙ panic in
          inr (e, (rw (or_clean_up, panic, failed), inl (panic_only e is_same, panic)))
      | inr regular ↦
          let (no_error, called) = clean_up-action_list (m s).1 in
          let ended =
            or_clean_up_error host start m s e failed regular
            ∙ try_ok (clean_up host start) (fail e) (m s).1 no_error in
          inr (e, (ap (λ o. o.0) ended, inr (ap (λ o. action_list o.1.calls) ended ∙ called)))
    ]
  ]
    where
      panic_only : (e : StartError) → is_panic (some e) ≡ true → e ≡ StartError.panicked
      panic_only e panic = ground arith

  -- A start ends in one of four ways, whatever the init process writes. It succeeds, and its flags say
  -- that procRun was sent, and procResume too if there is a mount namespace. Or there is an error and
  -- nothing was called but the start of the process. Or it panics, and the last message that the
  -- init process wrote is a procError. Or there is an error and the last calls kill the process and
  -- wait for it, and take down its cgroup and its RDT group.
  pub start_init_ends :
      (inbox : List Message) (s : Session)
      → (((start_init host start inbox s).0 ≡ none)
          × IsSynced start (start_init host start inbox s).1)
        ⊎ ((e : StartError) × (((start_init host start inbox s).0 ≡ some e)
              × ((action_list (start_init host start inbox s).1.calls
                    ≡ Action.cmd_start ∷ action_list s.calls)
                  ⊎ (((e ≡ StartError.panicked) × EndsInError inbox)
                      ⊎ ((before : List Action) × (action_list
                              (start_init host start inbox s).1.calls
                            ≡ cleaned start ++ before))))))
  unfolding start_init perform
  start_init_ends inbox s =
      let m = perform host Action.cmd_start in
      let k = or_clean_up host start (run_started host start inbox) in
      elim (Option-cases (m s).0) [
        | inr (e, failed) ↦
            let run = try_error m k s e failed in
            inr (e, (ap (λ o. o.0) run, inl (ap (λ o. action_list o.1.calls) run ∙ started s)))
        | inl fine ↦
            let run = try_ok m k s fine in
            elim (or_clean_up-ended (run_started host start inbox) (m s).1
              (run_started-Synced inbox)) [
                | inl (none_k, synced) ↦
                    inl
                      (ap (λ o. o.0) run ∙ none_k, subst (λ o. IsSynced start o.1) (sym run) synced)
                | inr (e, (some_k, inl (same, panic))) ↦
                    let reason = (run_started-PanicsOnly host start inbox).because (m s).1 panic in
                    inr (e, (ap (λ o. o.0) run ∙ some_k, inr (inl (same, reason))))
                | inr (e, (some_k, inr called)) ↦ inr (
                  e,
                  (
                    ap (λ o. o.0) run ∙ some_k,
                    inr (inr (_, ap (λ o. action_list o.1.calls) run ∙ called)),
                  ),
                )
              ]
      ]
    where
      started :
          (s : Session)
          → action_list (perform host Action.cmd_start s).1.calls
            ≡ Action.cmd_start ∷ action_list s.calls
      started s = refl
