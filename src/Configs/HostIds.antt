-- ===== src/Configs/HostIds.antt =====
-- The translation of IDs by a user namespace: libcontainer/configs/config_linux.go, and
-- `setupUserNamespace` of libcontainer/specconv/spec_linux.go. The fields of an `IDMap` come from
-- uint32 values, so that no sum of them is cut, and `id <= m.ContainerID + m.Size - 1` is
-- `id < m.ContainerID + m.Size`.
pub mod Isolation
use sysbox_runc.Prelude.{
  ℕ, ◌≡◌, ◌+◌, ◌-◌, Bool, true, false, not, ◌&&◌, ◌||◌, Option, none, some, List, [], ◌∷◌, ◌++◌,
  map, Result, ok, err, ◌>>=◌, if◌then◌else◌, ltb, leb,
}
use sysbox_runc.Configs.Namespaces.{Namespaces, new_user, contains_ns}
use sysbox_runc.Syscont.Spec.{LinuxIdMapping, Linux}

pub record IdMap : Type 0 where
  pub container_id : ℕ
  pub host_id : ℕ
  pub size : ℕ

-- The owner of a device node.
pub record DeviceOwner : Type 0 where
  pub uid : ℕ
  pub gid : ℕ

-- The parts of `Config` that are read or written; nil mappings are `none`.
pub record IdConfig : Type 0 where
  pub namespaces : Namespaces
  pub uid_mappings : Option (List IdMap)
  pub gid_mappings : Option (List IdMap)
  pub devices : List DeviceOwner

pub data IdError : Type 0 where
  no_uid_mappings no_gid_mappings no_user_mapping no_group_mapping : IdError

unfoldable pub host_id_from_mapping : ℕ → List IdMap → Option ℕ
host_id_from_mapping id [] = none
host_id_from_mapping id (m ∷ u_map) =
    if leb m.container_id id && ltb id (m.container_id + m.size)
    then some (m.host_id + (id - m.container_id))
    else host_id_from_mapping id u_map

abbrev pub found_or : IdError → Option ℕ → Result IdError ℕ
found_or e none = err e
found_or e (some id) = ok id

abbrev pub mapped_id : IdError → IdError → ℕ → Option (List IdMap) → Result IdError ℕ
mapped_id no_mappings no_mapping id none = err no_mappings
mapped_id no_mappings no_mapping id (some u_map) =
    found_or no_mapping (host_id_from_mapping id u_map)

unfoldable pub host_uid : IdConfig → ℕ → Result IdError ℕ
host_uid c id =
    if contains_ns new_user c.namespaces
    then mapped_id no_uid_mappings no_user_mapping id c.uid_mappings
    else ok id

unfoldable pub host_gid : IdConfig → ℕ → Result IdError ℕ
host_gid c id =
    if contains_ns new_user c.namespaces
    then mapped_id no_gid_mappings no_group_mapping id c.gid_mappings
    else ok id

abbrev pub host_root_uid : IdConfig → Result IdError ℕ
host_root_uid c = host_uid c 0

abbrev pub host_root_gid : IdConfig → Result IdError ℕ
host_root_gid c = host_gid c 0

abbrev pub create : LinuxIdMapping → IdMap
create m = record { container_id = m.container_id; host_id = m.host_id; size = m.size }

-- `append` to nil of nothing is nil.
unfoldable pub append_mappings : Option (List IdMap) → List LinuxIdMapping → Option (List IdMap)
append_mappings mappings [] = mappings
append_mappings none (m ∷ ms) = some (map create (m ∷ ms))
append_mappings (some mappings) (m ∷ ms) = some (mappings ++ map create (m ∷ ms))

unfoldable pub with_mappings : Linux → IdConfig → IdConfig
with_mappings linux config = record config {
  uid_mappings = append_mappings config.uid_mappings linux.uid_mappings;
  gid_mappings = append_mappings config.gid_mappings linux.gid_mappings;
}

-- The device nodes belong to the container's root.
unfoldable pub own_devices : ℕ → ℕ → List DeviceOwner → List DeviceOwner
own_devices uid gid [] = []
own_devices uid gid (node ∷ devices) = record { uid = uid; gid = gid } ∷ own_devices uid gid devices

unfoldable pub setup_user_namespace : Linux → IdConfig → Result IdError IdConfig
setup_user_namespace linux config = do
  let mapped = with_mappings linux config
  uid ← host_root_uid mapped
  gid ← host_root_gid mapped
  ok (record mapped { devices = own_devices uid gid config.devices })
