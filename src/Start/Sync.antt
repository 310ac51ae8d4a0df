-- ===== src/Start/Sync.antt =====
-- libcontainer/sync.go: the messages between the parent and the init process. The pipe delivers what
-- was written, in order; a read at the end of what is written finds it closed.
use sysbox_runc.Prelude.{ℕ, ◌≡◌, ◌↔◌, arith, Bool, true, List, String, nat_beq, Eq}

-- `syncType`
pub data SyncType : Type 0 where
  proc_error proc_ready proc_run proc_hooks proc_resume req_op send_op_info op_done proc_fd send_fd
        proc_fd_done rootfs_ready rootfs_ready_ack :
      SyncType

-- `opReqType`, with a number that is none of its constants, and the fields of `opReq` that
-- the parent looks at.
pub data OpType : Type 0 where
  bind switch_docker_dns chown mkdir rootfs_id_map overlay other_op : OpType

pub record OpReq : Type 0 where
  pub op : OpType
  pub rootfs : String
  pub path : String

-- What is written: a `syncT`, a `genericError`, requests, a file descriptor, or what does not decode.
pub data Message : Type 0 where
  sync : SyncType → Message
  generic_error : String → Message
  requests : List OpReq → Message
  seccomp_fd : ℕ → Message
  garbage : Message

abbrev pub index : SyncType → ℕ
index proc_error = 0
index proc_ready = 1
index proc_run = 2
index proc_hooks = 3
index proc_resume = 4
index req_op = 5
index send_op_info = 6
index op_done = 7
index proc_fd = 8
index send_fd = 9
index proc_fd_done = 10
index rootfs_ready = 11
index rootfs_ready_ack = 12

abbrev pub sync_beq : SyncType → SyncType → Bool
sync_beq a b = nat_beq (index a) (index b)

pub sync_beq_iff : (a b : SyncType) → (sync_beq a b ≡ true) ↔ (a ≡ b)
sync_beq_iff a b = ground arith

instance abbrev pub sync_eq : Eq SyncType
sync_eq = record { beq = sync_beq; beq_iff = sync_beq_iff }
