-- ===== src/Start/Calls.antt =====
-- The calls of the parent while it starts a container, with what each of them answered.
use sysbox_runc.Prelude.{
  ℕ, ◌≡◌, Bool, true, false, Option, none, some, List, [], ◌∷◌, ◌++◌, String, if◌then◌else◌,
}
use sysbox_runc.Start.Sync.{SyncType, OpType, OpReq}

pub data HookName : Type 0 where
  prestart create_runtime : HookName

-- What the parent does that is not its own computation.
pub data Action : Type 0 where
  cmd_start cgroup_apply cgroup_set setup_dev_subdir copy_bootstrap get_child_pid get_pipe_fds :
      Action
  create_child_cgroup apply_child_cgroup rdt_apply rdt_apply_child rdt_set : Action
  write_create_cgroupns wait_first_child create_network update_spec_state send_config : Action
  set_rlimits current_oci_state update_state shutdown kill wait signal_all : Action
  cgroup_destroy rdt_destroy fs_register : Action
  run_hooks : HookName → Action
  write : SyncType → Action
  handle_op : OpType → List OpReq → Action
  send_seccomp_init : ℕ → Action

-- A call and its error, if it has one.
abbrev pub Entry : Type 0
Entry = Action × Option String

-- What a call answers depends on all calls before it, the last one first.
pub record Host : Type 0 where
  pub answer : List Entry → Action → Option String

pub data StartError : Type 0 where
  remote : String → StartError  -- what the init process reports
  failed : Action → String → StartError
  no_cause : Action → StartError  -- an error that is built of a nil one
  bad_message invalid_payload no_requests invalid_request not_resumed panicked : StartError
  container_init : StartError → StartError
  container_init_nil : StartError  -- the loop ended without an error

-- The calls so far, and the variables of the start.
pub record Session : Type 0 where
  pub calls : List Entry
  pub is_created : Bool  -- the container's state is `createdState`
  pub sent_run : Bool
  pub sent_resume : Bool

abbrev pub M : Type 0
M = Session → Option StartError × Session

-- `if err := m; err != nil { return err }`, then the rest.
abbrev pub try : M → M → M
try m k s = let (e, s') = m s in elim e [ none ↦ k s' | some err ↦ (some err, s') ]

pub try_ok : (m k : M) (s : Session) → (m s).0 ≡ none → try m k s ≡ k (m s).1
try_ok m k s h = rw (try, h)

pub try_error :
    (m k : M) (s : Session) (e : StartError) → (m s).0 ≡ some e → try m k s ≡ (some e, (m s).1)
try_error m k s e h = rw (try, h)

abbrev pub done : M
done s = (none, s)

abbrev pub fail : StartError → M
fail e s = (some e, s)

abbrev pub when : Bool → M → M
when b m s = if b then m s else (none, s)

-- A panic leaves all functions.
abbrev pub is_panic : Option StartError → Bool
is_panic (some StartError.panicked) = true
is_panic _ = false

abbrev pub call_error : Action → Option String → Option StartError
call_error a none = none
call_error a (some e) = some (failed a e)

abbrev pub update : (Session → Session) → M
update f s = (none, f s)

abbrev pub mark_created : Session → Session
mark_created s = record s { is_created = true }

abbrev pub mark_run : Session → Session
mark_run s = record s { sent_run = true }

abbrev pub mark_resume : Session → Session
mark_resume s = record s { sent_resume = true }

-- The messages that were written, in their order.
unfoldable pub delivered : List Entry → List SyncType
delivered [] = []
delivered ((write t, none) ∷ calls) = delivered calls ++ t ∷ []
delivered (_ ∷ calls) = delivered calls

module _ (host : Host) where
  unfoldable pub perform : Action → M
  perform a s =
      let e = host.answer s.calls a in (call_error a e, record s { calls = (a, e) ∷ s.calls })

  -- A call whose error is dropped.
  unfoldable pub perform_ : Action → M
  perform_ a s = (none, record s { calls = (a, host.answer s.calls a) ∷ s.calls })
