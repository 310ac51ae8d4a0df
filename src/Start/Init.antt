-- ===== src/Start/Init.antt =====
-- `linuxStandardInit.Init` of libcontainer/standard_init_linux.go and `setupSyscallTraps` of
-- libcontainer/init_linux.go: the init process of a container up to its exec. A process that kills
-- itself does not go on. Unlocks and closed files at the end of the function are left out.
pub mod Counts
pub mod Filters
use sysbox_runc.Prelude.{
  ℕ, ◌≡◌, Bool, true, false, not, ◌&&◌, ◌||◌, Option, none, some, List, [], ◌∷◌, String,
  if◌then◌else◌, ◌==◌, string_eq, ltb, length, contains,
}

-- The calls, with the answers of the parent and of the functions that are not modelled.
pub data InitAction : Type 0 where
  validate_cwd setup_network setup_route prepare_rootfs set_key_label join_keyring mod_keyring :
      InitAction
  setup_console set_ctty finalize_rootfs set_hostname apply_apparmor switch_docker_dns get_mounts :
      InitAction
  mount_over_sysboxfs mask_paths get_pdeath_signal set_no_new_privs set_exec_label : InitAction
  finalize_namespace restore_pdeath same_parent kill_self look_path reopen_fifo write_fifo :
      InitAction
  ask_rootfs_ready ask_ready ask_seccomp_fd : InitAction
  load_filter load_notify_filter run_start_hooks close_files exec : InitAction
  write_sysctl : String → InitAction
  readonly_path : String → InitAction

abbrev pub Log : Type 0
Log = List (InitAction × Option String)

-- Answers depend on all calls before, the last one first. `no_keyrings` is the test for ENOSYS.
pub record InitHost : Type 0 where
  pub answer : Log → InitAction → Option String
  pub no_keyrings : String → Bool

-- What is read of the configuration; the capabilities are the effective ones, and the notification
-- profile is the number of its syscalls.
pub record InitConfig : Type 0 where
  pub no_new_keyring : Bool
  pub create_console : Bool
  pub has_mount_ns : Bool
  pub hostname : String
  pub switches_dns : Bool
  pub sysctls : List String
  pub readonly_paths : List String
  pub no_new_privileges : Bool
  pub process_capabilities : Option (List String)
  pub container_capabilities : Option (List String)
  pub notify_syscalls : Option ℕ
  pub has_seccomp : Bool

abbrev pub Step : Type 0
Step = Log → Option String × Log

abbrev pub then_do : Step → Step → Step
then_do m k log = let (e, log') = m log in elim e [ none ↦ k log' | some x ↦ (some x, log') ]

abbrev pub nothing : Step
nothing log = (none, log)

abbrev pub if_so : Bool → Step → Step
if_so b m log = if b then m log else (none, log)

abbrev pub lacks_admin : Option (List String) → Bool
lacks_admin none = false
lacks_admin (some capabilities) = not (contains capabilities "CAP_SYS_ADMIN")

-- Go's `!a && b || c`: the second list is looked at in any case.
unfoldable pub loads_early : InitConfig → Bool
loads_early config =
    (not config.no_new_privileges && lacks_admin config.process_capabilities)
    || lacks_admin config.container_capabilities

module _ (host : InitHost) (config : InitConfig) where
  unfoldable pub do_call : InitAction → Step
  do_call a log = (host.answer log a, (a, host.answer log a) ∷ log)

  -- Old kernels have no keyrings, which is no error.
  unfoldable pub join_session_keyring : Step
  join_session_keyring log = elim (host.answer log join_keyring) [
    | none ↦ do_call mod_keyring ((join_keyring, none) ∷ log)
    | some e ↦ (if host.no_keyrings e then none else some e, (join_keyring, some e) ∷ log)
  ]

  unfoldable pub setup_keyring : Step
  setup_keyring =
      if_so (not config.no_new_keyring) (then_do (do_call set_key_label) join_session_keyring)

  unfoldable pub setup_terminal : Step
  setup_terminal = if_so config.create_console (then_do (do_call setup_console) (do_call set_ctty))

  unfoldable pub write_sysctls : List String → Step
  write_sysctls [] = nothing
  write_sysctls (key ∷ keys) = then_do (do_call (write_sysctl key)) (write_sysctls keys)

  unfoldable pub make_readonly : List String → Step
  make_readonly [] = nothing
  make_readonly (path ∷ paths) = then_do (do_call (readonly_path path)) (make_readonly paths)

  unfoldable pub handle_readonly_paths : Step
  handle_readonly_paths =
      if_so (ltb 0 (length config.readonly_paths))
        (then_do (do_call get_mounts) (make_readonly config.readonly_paths))

  -- `setupSyscallTraps`, and whether there is a profile for it.
  abbrev pub traps_some : Option ℕ → Bool
  traps_some none = false
  traps_some (some n) = ltb 0 n

  abbrev pub has_notify : Bool
  has_notify = elim config.notify_syscalls [ none ↦ false | some _ ↦ true ]

  unfoldable pub setup_syscall_traps : Step
  setup_syscall_traps =
      if_so (traps_some config.notify_syscalls)
        (then_do (do_call load_notify_filter) (do_call ask_seccomp_fd))

  -- Up to the message that the process is ready.
  unfoldable pub set_up : Step
  set_up = then_do (do_call validate_cwd) (
      then_do (do_call setup_network) (
        then_do (do_call setup_route) (
          then_do (do_call prepare_rootfs) (
            then_do setup_keyring (
              then_do setup_terminal (
                then_do (if_so config.has_mount_ns (do_call finalize_rootfs)) (
                  then_do (if_so (not (config.hostname == "")) (do_call set_hostname))
                    (do_call apply_apparmor))))))))

  unfoldable pub after_registration : Step
  after_registration = then_do (do_call ask_rootfs_ready) (
      then_do (if_so config.switches_dns (do_call switch_docker_dns)) (
        then_do (write_sysctls config.sysctls) (
          then_do handle_readonly_paths (
            then_do (do_call mount_over_sysboxfs) (
              then_do (do_call mask_paths) (
                then_do (do_call get_pdeath_signal) (
                  then_do (if_so config.no_new_privileges (do_call set_no_new_privs))
                    (then_do (do_call ask_ready) (do_call set_exec_label)))))))))

  -- The filters that are loaded before the capabilities are dropped.
  unfoldable pub load_early : Step
  load_early = if_so (loads_early config) (
      then_do (if_so has_notify setup_syscall_traps)
        (if_so config.has_seccomp (do_call load_filter)))

  unfoldable pub check_parent : Step
  check_parent log = elim (host.answer log same_parent) [
    | none ↦ (none, (same_parent, none) ∷ log)
    | some e ↦ (
      some e,
      (kill_self, host.answer ((same_parent, some e) ∷ log) kill_self)
          ∷ (same_parent, some e)
          ∷ log,
    )
  ]

  unfoldable pub load_late : Step
  load_late =
      if_so (config.has_seccomp && not (loads_early config && config.has_seccomp))
        (do_call load_filter)

  unfoldable pub drop_privileges : Step
  drop_privileges =
      then_do (do_call finalize_namespace)
        (then_do (do_call restore_pdeath) (then_do check_parent (do_call look_path)))

  unfoldable pub finish_init : Step
  finish_init = then_do (do_call reopen_fifo) (
      then_do (do_call write_fifo)
        (then_do load_late (then_do (do_call run_start_hooks) (do_call close_files))))

  unfoldable pub late_traps : Step
  late_traps = if_so (has_notify && not (loads_early config && has_notify)) setup_syscall_traps

  unfoldable pub before_exec : Step
  before_exec = then_do set_up (
      then_do after_registration
        (then_do load_early (then_do drop_privileges (then_do late_traps finish_init))))

  unfoldable pub init_container : Step
  init_container = then_do before_exec (do_call exec)
