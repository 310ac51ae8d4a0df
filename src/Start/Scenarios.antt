-- ===== src/Start/Scenarios.antt =====
-- Starts of a container by a concrete host.
use sysbox_runc.Prelude.{
  ◌≡◌, ◌+◌, refl, true, false, Option, none, some, List, [], ◌∷◌, ◌++◌, String, map, ◌⊎◌,
}
use sysbox_runc.Start.Sync.{
  proc_run, proc_resume, send_op_info, op_done, rootfs_ready_ack, send_fd, proc_fd_done, OpReq,
  chown, Message, sync,
}
use sysbox_runc.Start.Calls.{Host, Session, StartError, Action, delivered, perform}
use sysbox_runc.Start.Parent.{
  Start, parse_sync, handle, handle_ready, handle_hooks, handle_rootfs_ready, handle_ops,
  handle_req_op, dispatch_op, handle_fd, proc_seccomp_init, run_early_hooks, set_rdt, store_state,
  register_with_sysboxfs, start_init,
}
use sysbox_runc.Start.Child.{ChildError, Request, run_requests}
use sysbox_runc.Start.Agreement.Handlers.{all_writes, writes}
use sysbox_runc.Start.Agreement.Replies.{pipe}
use sysbox_runc.Start.Agreement.Joint.{parse_sync-run_requests}
use sysbox_runc.Start.Order.{IsOrdered}
use sysbox_runc.Start.Order.Started.{start_init-IsOrdered}
use sysbox_runc.Start.Init.{
  InitHost, InitConfig, before_exec, set_up, after_registration, load_early, drop_privileges,
  late_traps, finish_init, load_late, do_call, join_session_keyring, setup_keyring, setup_terminal,
  write_sysctls, make_readonly, handle_readonly_paths, setup_syscall_traps, check_parent,
  loads_early, traps_some,
}
use sysbox_runc.Start.Init.Counts.{is_filter, is_notify, one_if, times}
use sysbox_runc.Start.Init.Filters.{before_exec-filters}
use sysbox_runc.Start.Panics.Reason.{EndsInError}
use sysbox_runc.Start.Ending.{action_list, cleaned, IsSynced, start_init_ends}

-- A host whose registration with sysbox-fs fails.
abbrev no_fs : Host
no_fs = record {
  answer = λ calls a. elim a [ Action.fs_register ↦ some "registration" | _ ↦ none ];
}

abbrev willing : Host
willing = record { answer = λ calls a. none }

abbrev config : Start
config = record {
  has_mount_ns = true;
  has_hooks = true;
  has_rdt = false;
  private_cgroup_ns = true;
  is_cgroup_v2 = true;
  fs_enabled = true;
  share_pid_ns = false;
}

abbrev fresh : Session
fresh = record { calls = []; is_created = false; sent_run = false; sent_resume = false }

abbrev chown_req : OpReq
chown_req = record { op = chown; rootfs = "/var/lib"; path = "/etc" }

-- What an init process asks for, in its order.
abbrev asked : List Request
asked =
    Request.ops (chown_req ∷ [])
    ∷ Request.hooks
    ∷ Request.rootfs
    ∷ Request.ready
    ∷ Request.notify_fd 7
    ∷ []

abbrev inbox : List Message
inbox = all_writes asked

abbrev never : List Message → Message → Option String
never sent m = none

-- With the failed registration both sides end with an error.
parse_sync-run_requests_example :
    (((parse_sync no_fs config inbox fresh).0 ≡ none)
      × (run_requests never asked
            (pipe (map sync (delivered (parse_sync no_fs config inbox fresh).1.calls)) [])
          ≡ (none, pipe [] (all_writes asked))))
    ⊎ ((e : StartError) × (((parse_sync no_fs config inbox fresh).0 ≡ some e)
          × ((run_requests never asked
                (pipe (map sync (delivered (parse_sync no_fs config inbox fresh).1.calls)) [])).0
              ≡ some ChildError.closed)))
unfolding delivered
parse_sync-run_requests_example =
    parse_sync-run_requests never (λ sent m. refl) no_fs config asked fresh refl

start_init-IsOrdered_example : IsOrdered config (start_init willing config inbox fresh).1.calls
start_init-IsOrdered_example = start_init-IsOrdered willing config inbox fresh tt

start_init_ends_example :
    (((start_init no_fs config inbox fresh).0 ≡ none)
      × IsSynced config (start_init no_fs config inbox fresh).1)
    ⊎ ((e : StartError) × (((start_init no_fs config inbox fresh).0 ≡ some e)
          × ((action_list (start_init no_fs config inbox fresh).1.calls
                ≡ Action.cmd_start ∷ action_list fresh.calls)
              ⊎ (((e ≡ StartError.panicked) × EndsInError inbox)
                  ⊎ ((before : List Action) × (action_list
                          (start_init no_fs config inbox fresh).1.calls
                        ≡ cleaned config ++ before))))))
start_init_ends_example = start_init_ends no_fs config inbox fresh

-- The parent of a willing host answers all that is asked.
answers_test :
    delivered (parse_sync willing config inbox fresh).1.calls
    ≡ send_op_info ∷ op_done ∷ proc_resume ∷ rootfs_ready_ack ∷ proc_run ∷ send_fd ∷ proc_fd_done
      ∷ []
unfolding delivered parse_sync handle handle_ready handle_hooks handle_rootfs_ready handle_ops
    handle_req_op dispatch_op handle_fd proc_seccomp_init run_early_hooks set_rdt store_state
    register_with_sysboxfs perform all_writes writes
answers_test = refl

-- An init process of a user without CAP_SYS_ADMIN.
abbrev init_host : InitHost
init_host = record { answer = λ log a. none; no_keyrings = λ e. false }

abbrev init_config : InitConfig
init_config = record {
  no_new_keyring = false;
  create_console = true;
  has_mount_ns = true;
  hostname = "syscont";
  switches_dns = true;
  sysctls = "net.ipv4.ip_forward" ∷ [];
  readonly_paths = "/proc/bus" ∷ [];
  no_new_privileges = false;
  process_capabilities = some ("CAP_CHOWN" ∷ []);
  container_capabilities = none;
  notify_syscalls = some 3;
  has_seccomp = true;
}

before_exec_succeeds : (before_exec init_host init_config []).0 ≡ none
unfolding before_exec set_up after_registration load_early drop_privileges late_traps finish_init
    load_late do_call join_session_keyring setup_keyring setup_terminal write_sysctls make_readonly
    handle_readonly_paths setup_syscall_traps check_parent loads_early
before_exec_succeeds = refl

before_exec-filters_example :
    (times is_filter (before_exec init_host init_config []).1
      ≡ one_if init_config.has_seccomp + times is_filter [])
    × (times is_notify (before_exec init_host init_config []).1
        ≡ one_if (traps_some init_host init_config init_config.notify_syscalls)
          + times is_notify [])
before_exec-filters_example = before_exec-filters init_host init_config [] before_exec_succeeds
