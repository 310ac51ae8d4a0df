-- ===== src/Container/Session.antt =====
-- The container, and its calls of the host: the kernel, the cgroup and RDT managers, hooks,
-- sysbox-mgr and sysbox-fs. What a call answers depends on all calls before it, so that the host
-- may change between any two of them. Logging and locking are left out.
use sysbox_runc.Prelude.{ℕ, Bool, Option, none, some, List, ◌∷◌, String}
use sysbox_runc.Configs.Namespaces.{Namespaces}

-- libcontainer/container.go
pub data Status : Type 0 where
  created running pausing paused stopped : Status

-- The implementations of `containerState`; the container that they point to is the session's.
pub data ContainerState : Type 0 where
  stopped_state running_state created_state paused_state : ContainerState
  restored_state : (image_dir : String) → ContainerState
  loaded_state : Status → ContainerState

pub data ShiftType : Type 0 where
  no_shift chown shiftfs id_mapped : ShiftType

pub record Container : Type 0 where
  pub state : ContainerState
  pub init_process : Option ℕ  -- its pid
  pub init_process_start_time : ℕ
  pub namespaces : Namespaces
  pub has_hooks : Bool
  pub has_intel_rdt : Bool
  pub rootfs_uid_shift_type : ShiftType
  pub rootfs_cloned : Bool
  pub sysbox_mgr_enabled : Bool
  pub sysbox_fs_enabled : Bool

pub data ProcessState : Type 0 where
  zombie dead other : ProcessState

-- `system.Stat_t`, as far as it is read.
pub record Stat : Type 0 where
  pub state : ProcessState
  pub start_time : ℕ

pub data ErrorCode : Type 0 where
  container_paused container_not_stopped container_not_running container_not_paused : ErrorCode

pub data Error : Type 0 where
  state_transition : Status → Status → Error
  generic : ErrorCode → Error
  system : String → Error
  out_of_fuel : Error

-- Calls that only read the host.
pub data Query : Type 0 where
  stat : ℕ → Query
  exec_fifo_exists freezer_state : Query

-- Calls that act on the host.
pub data Action : Type 0 where
  signal_all_processes cgroup_destroy intel_rdt_destroy remove_root run_poststop_hooks : Action
  signal_init : Action
  freeze thaw : Action
  stat_checkpoint : Action
  chown_rootfs revert_rootfs_chown revert_cloned_rootfs_chown : Action
  mgr_pause mgr_resume mgr_unregister fs_unregister : Action
  get_mounts teardown_shiftfs_mark : Action

pub data Call : Type 0 where
  query : Query → Call
  action : Action → Call

-- What the host answers, from the calls so far, the last one first.
pub record Host : Type 0 where
  pub act : List Call → Action → Option String
  pub process_stat : List Call → ℕ → Option Stat
  pub has_exec_fifo : List Call → Bool
  pub frozen : List Call → Option String × Bool
  pub not_exist : Error → Bool

pub record Session : Type 0 where
  pub container : Container
  pub calls : List Call

abbrev pub M : Type 0 → Type 0
M A = Session → A × Session

infixl 5 ◌>>=◌ ◌>>◌
abbrev pub ◌>>=◌ : {A B : Type 0} → M A → (A → M B) → M B
◌>>=◌ m f s = let (a, s') = m s in f a s'

abbrev pub ◌>>◌ : {A B : Type 0} → M A → M B → M B
m >> k = m >>= λ _. k

abbrev pub pure : {A : Type 0} → A → M A
pure a s = (a, s)

abbrev pub get : M Container
get s = (s.container, s)

abbrev pub set_state : ContainerState → M (Unit {0})
set_state state s = (tt, record s { container = record (s.container) { state = state } })

abbrev pub clear_init_process : M (Unit {0})
clear_init_process s = (tt, record s { container = record (s.container) { init_process = none } })

-- `if err != nil { return err }`, then the rest.
abbrev pub try : M (Option Error) → M (Option Error) → M (Option Error)
try m k s = let (err, s') = m s in elim err [ none ↦ k s' | some e ↦ (some e, s') ]

-- `if err2 := ...; err == nil { err = err2 }`
abbrev pub first_error : Option Error → Option Error → Option Error
first_error none err2 = err2
first_error (some e) err2 = some e

abbrev pub host_error : Option String → Option Error
host_error none = none
host_error (some message) = some (system message)

module _ (host : Host) where
  unfoldable pub perform : Action → M (Option Error)
  perform a s = (host_error (host.act s.calls a), record s { calls = action a ∷ s.calls })

  unfoldable pub ask_stat : ℕ → M (Option Stat)
  ask_stat pid s = (host.process_stat s.calls pid, record s { calls = query (stat pid) ∷ s.calls })

  unfoldable pub ask_exec_fifo : M Bool
  ask_exec_fifo s =
      (host.has_exec_fifo s.calls, record s { calls = query exec_fifo_exists ∷ s.calls })

  -- `GetFreezerState`, and whether the state is `Frozen`.
  unfoldable pub ask_frozen : M (Option Error × Bool)
  ask_frozen s = (
    (host_error (host.frozen s.calls).0, (host.frozen s.calls).1),
    record s { calls = query freezer_state ∷ s.calls },
  )
