-- ===== src/Start/Init/Filters.antt =====
-- How often the seccomp filters are loaded before the exec.
use sysbox_runc.Prelude.{
  ℕ, ◌≡◌, ◌∙◌, refl, ap, ◌+◌, arith, Bool, true, false, not, ◌&&◌, ◌||◌, Option, none, some, List,
  [], ◌∷◌, String, if◌then◌else◌, string_eq, Option-cases, inl, inr,
}
use sysbox_runc.Start.Init.{
  InitAction, load_filter, load_notify_filter, write_sysctl, readonly_path, validate_cwd,
  setup_network, setup_route, prepare_rootfs, set_key_label, join_keyring, mod_keyring,
  setup_console, set_ctty, finalize_rootfs, set_hostname, apply_apparmor, switch_docker_dns,
  get_mounts, mount_over_sysboxfs, mask_paths, get_pdeath_signal, set_no_new_privs, set_exec_label,
  finalize_namespace, restore_pdeath, same_parent, look_path, reopen_fifo, write_fifo,
  ask_rootfs_ready, ask_ready, ask_seccomp_fd, run_start_hooks, close_files, Log, InitHost,
  InitConfig, Step, then_do, loads_early, do_call, join_session_keyring, setup_keyring,
  setup_terminal, write_sysctls, make_readonly, handle_readonly_paths, traps_some, has_notify,
  setup_syscall_traps, set_up, after_registration, load_early, check_parent, load_late,
  drop_privileges, finish_init, late_traps, before_exec,
}
use sysbox_runc.Start.Init.Counts.{
  is_filter, is_notify, one_if, times, Adds, then-Adds, if_so-Adds, nothing-Adds, cast-Adds,
  optional-Adds,
}

-- Whatever is loaded early is not loaded late.
total :
    (early notify seccomp : Bool) (traps filter : ℕ)
    → (notify ≡ false → traps ≡ 0)
    → 0
        + (0
            + ((if early
                  then (if notify then traps else 0) + (if seccomp then filter else 0)
                  else 0)
                + (0
                    + ((if notify && not (early && notify) then traps else 0)
                        + (0
                            + (0
                                + ((if seccomp && not (early && seccomp) then filter else 0)
                                    + (0 + 0))))))))
      ≡ traps + (if seccomp then filter else 0)
total true true true traps filter h = omega arith
total true true false traps filter h = omega arith
total true false true traps filter h = omega (arith, h refl)
total true false false traps filter h = omega (arith, h refl)
total false true true traps filter h = omega arith
total false true false traps filter h = omega arith
total false false true traps filter h = omega (arith, h refl)
total false false false traps filter h = omega (arith, h refl)

module _ (p : InitAction → Bool) where
  module _ (host : InitHost) (config : InitConfig) where
    call-Adds : (a : InitAction) → Adds p (do_call host config a) (one_if (p a))
    unfolding do_call times
    call-Adds a = record { adds = λ log fine. refl }

    module _ (plain : (a : InitAction) → (is_filter a || is_notify a) ≡ false → p a ≡ false) where
      plain-Adds :
          (a : InitAction) → (is_filter a || is_notify a) ≡ false → Adds p (do_call host config a) 0
      plain-Adds a h = cast-Adds p _ (one_if (p a)) 0 (ap one_if (plain a h)) (call-Adds a)

      both-Adds : (m k : Step) → Adds p m 0 → Adds p k 0 → Adds p (then_do m k) 0
      both-Adds m k first second = then-Adds p m k 0 0 first second

      keyring-Adds : Adds p (join_session_keyring host config) 0
      unfolding join_session_keyring times do_call
      keyring-Adds = record {
        adds = λ log fine. elim (Option-cases (host.answer log join_keyring)) [
          | inl joined ↦
              rw (join_session_keyring, joined)
                (omega
                  (arith, ap one_if (plain mod_keyring refl), ap one_if (plain join_keyring refl)))
          | inr (e, refused) ↦
              rw (join_session_keyring, refused)
                (omega (arith, ap one_if (plain join_keyring refl)))
        ];
      }

      sysctls-Adds : (keys : List String) → Adds p (write_sysctls host config keys) 0
      unfolding write_sysctls
      sysctls-Adds [] = nothing-Adds p
      sysctls-Adds (key ∷ keys) =
          both-Adds _ _ (plain-Adds (write_sysctl key) refl) (sysctls-Adds keys)

      readonly-Adds : (paths : List String) → Adds p (make_readonly host config paths) 0
      unfolding make_readonly
      readonly-Adds [] = nothing-Adds p
      readonly-Adds (path ∷ paths) =
          both-Adds _ _ (plain-Adds (readonly_path path) refl) (readonly-Adds paths)

      set_up-Adds : Adds p (set_up host config) 0
      unfolding set_up setup_keyring setup_terminal
      set_up-Adds = both-Adds _ _ (plain-Adds validate_cwd refl) (
          both-Adds _ _ (plain-Adds setup_network refl) (
            both-Adds _ _ (plain-Adds setup_route refl) (
              both-Adds _ _ (plain-Adds prepare_rootfs refl) (
                both-Adds _ _
                  (optional-Adds p _ _ (both-Adds _ _ (plain-Adds set_key_label refl) keyring-Adds))
                  (both-Adds _ _
                    (optional-Adds p _ _
                      (both-Adds _ _ (plain-Adds setup_console refl) (plain-Adds set_ctty refl)))
                    (both-Adds _ _ (optional-Adds p _ _ (plain-Adds finalize_rootfs refl)) (
                      both-Adds _ _ (optional-Adds p _ _ (plain-Adds set_hostname refl))
                        (plain-Adds apply_apparmor refl))))))))

      after_registration-Adds : Adds p (after_registration host config) 0
      unfolding after_registration handle_readonly_paths
      after_registration-Adds = both-Adds _ _ (plain-Adds ask_rootfs_ready refl) (
          both-Adds _ _ (optional-Adds p _ _ (plain-Adds switch_docker_dns refl)) (
            both-Adds _ _ (sysctls-Adds config.sysctls) (
              both-Adds _ _
                (optional-Adds p _ _ (
                  both-Adds _ _ (plain-Adds get_mounts refl) (readonly-Adds config.readonly_paths)))
                (both-Adds _ _ (plain-Adds mount_over_sysboxfs refl) (
                  both-Adds _ _ (plain-Adds mask_paths refl) (
                    both-Adds _ _ (plain-Adds get_pdeath_signal refl) (
                      both-Adds _ _ (optional-Adds p _ _ (plain-Adds set_no_new_privs refl)) (
                        both-Adds _ _ (plain-Adds ask_ready refl)
                          (plain-Adds set_exec_label refl)))))))))

      parent-Adds : Adds p (check_parent host config) 0
      unfolding check_parent times
      parent-Adds = record {
        adds = λ log fine. elim (Option-cases (host.answer log same_parent)) [
          | inl same ↦ rw (check_parent, same) (omega (arith, ap one_if (plain same_parent refl)))
          | inr (e, changed) ↦
              let clash : some e ≡ none = rw (check_parent, changed) at fine in ground arith
        ];
      }

      drop-Adds : Adds p (drop_privileges host config) 0
      unfolding drop_privileges
      drop-Adds = both-Adds _ _ (plain-Adds finalize_namespace refl) (
          both-Adds _ _ (plain-Adds restore_pdeath refl)
            (both-Adds _ _ parent-Adds (plain-Adds look_path refl)))

      traps-Adds : Adds p (setup_syscall_traps host config) (
          if traps_some host config config.notify_syscalls
          then one_if (p load_notify_filter)
          else 0)
      unfolding setup_syscall_traps
      traps-Adds = if_so-Adds p _ _ (one_if (p load_notify_filter)) (
          cast-Adds p _ (one_if (p load_notify_filter) + 0) (one_if (p load_notify_filter))
            (omega arith)
            (then-Adds p _ _ (one_if (p load_notify_filter)) 0 (call-Adds load_notify_filter)
              (plain-Adds ask_seccomp_fd refl)))

      no_traps :
          (o : Option ℕ)
          → (elim o [ none ↦ false | some _ ↦ true ]) ≡ false
          → (if traps_some host config o then one_if (p load_notify_filter) else 0) ≡ 0
      no_traps none h = refl
      no_traps (some n) h = ground arith

      -- The early and the late calls together.
      before_exec-Adds : Adds p (before_exec host config) (
          (if traps_some host config config.notify_syscalls
            then one_if (p load_notify_filter)
            else 0)
          + (if config.has_seccomp then one_if (p load_filter) else 0))
      unfolding before_exec load_early late_traps finish_init load_late
      before_exec-Adds =
          let traps =
            if traps_some host config config.notify_syscalls
            then one_if (p load_notify_filter)
            else 0 in
          cast-Adds p _ _ _
            (total (loads_early config) (has_notify host config) config.has_seccomp traps
              (one_if (p load_filter)) (no_traps config.notify_syscalls))
            (then-Adds p _ _ _ _ set_up-Adds (
              then-Adds p _ _ _ _ after_registration-Adds (
                then-Adds p _ _ _ _
                  (if_so-Adds p (loads_early config) _ _ (
                    then-Adds p _ _ _ _ (if_so-Adds p (has_notify host config) _ _ traps-Adds)
                      (if_so-Adds p config.has_seccomp _ _ (call-Adds load_filter))))
                  (then-Adds p _ _ _ _ drop-Adds (
                    then-Adds p _ _ _ _ (if_so-Adds p _ _ _ traps-Adds) (
                      then-Adds p _ _ _ _ (plain-Adds reopen_fifo refl) (
                        then-Adds p _ _ _ _ (plain-Adds write_fifo refl) (
                          then-Adds p _ _ _ _ (if_so-Adds p _ _ _ (call-Adds load_filter)) (
                            then-Adds p _ _ _ _ (plain-Adds run_start_hooks refl)
                              (plain-Adds close_files refl))))))))))

is_filter-plain : (a : InitAction) → (is_filter a || is_notify a) ≡ false → is_filter a ≡ false
is_filter-plain a h = ground arith

is_notify-plain : (a : InitAction) → (is_filter a || is_notify a) ≡ false → is_notify a ≡ false
is_notify-plain a h = ground arith

-- If all steps before the exec succeed, the seccomp filter has been loaded once if the profile has
-- one and never if not, and the notification filter once if its profile names a syscall and never if
-- not, in whichever order the capabilities ask for.
pub before_exec-filters :
    (host : InitHost) (config : InitConfig) (log : Log)
    → (before_exec host config log).0 ≡ none
    → (times is_filter (before_exec host config log).1
        ≡ one_if config.has_seccomp + times is_filter log)
      × (times is_notify (before_exec host config log).1
          ≡ one_if (traps_some host config config.notify_syscalls) + times is_notify log)
before_exec-filters host config log fine =
    let traps = traps_some host config config.notify_syscalls in
    (
      (before_exec-Adds is_filter host config is_filter-plain).adds log fine
          ∙ ap (λ n. n + times is_filter log) (only_filter traps config.has_seccomp),
      (before_exec-Adds is_notify host config is_notify-plain).adds log fine
          ∙ ap (λ n. n + times is_notify log) (only_notify traps config.has_seccomp),
    )
  where
    only_filter : (t s : Bool) → (if t then 0 else 0) + (if s then 1 else 0) ≡ one_if s
    only_filter t s = ground arith

    only_notify : (t s : Bool) → (if t then 1 else 0) + (if s then 0 else 0) ≡ one_if t
    only_notify t s = ground arith
