-- ===== src/Syscont/Spec.antt =====
-- The parts of the OCI spec and of sysbox-mgr's configuration that libsysbox/syscont reads and
-- writes: types of the runtime-spec's Go package, and libsysbox/sysbox/mgr.go's configuration.
use sysbox_runc.Prelude.{ℕ, Bool, List, String}

-- `LinuxIDMapping`; each field is a uint32.
pub record LinuxIdMapping : Type 0 where
  pub container_id : ℕ
  pub host_id : ℕ
  pub size : ℕ

-- `LinuxNamespace`: `Type`, `Path`.
pub record LinuxNamespace : Type 0 where
  pub type : String
  pub path : String

-- The parts of `specs.Linux` that the ID mappings and the namespaces take.
pub record Linux : Type 0 where
  pub namespaces : List LinuxNamespace
  pub uid_mappings : List LinuxIdMapping
  pub gid_mappings : List LinuxIdMapping

-- What sysbox-mgr sets for a container, as far as it is read here, and whether it is there.
pub record Mgr : Type 0 where
  pub enabled : Bool
  pub userns : String
  pub uid_mappings : List LinuxIdMapping
  pub gid_mappings : List LinuxIdMapping
