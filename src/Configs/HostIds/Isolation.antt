-- ===== src/Configs/HostIds/Isolation.antt =====
-- The host's IDs of a container.
use sysbox_runc.Prelude.{
  ℕ, ◌≡◌, ◌≢◌, refl, ◌+◌, ◌≤◌, arith, true, false, ◌&&◌, ◌||◌, Option, none, some, List, [], ◌∷◌,
  map, ok, ltb, leb, nat_eq, All, length, subst,
}
use sysbox_runc.Configs.Namespaces.{new_user, contains_ns}
use sysbox_runc.Syscont.Spec.{LinuxIdMapping, Linux}
use sysbox_runc.Syscont.IdMappings.{id_range_min}
use sysbox_runc.Syscont.IdMappings.Merge.{covers, maps_to}
use sysbox_runc.Syscont.IdMappings.Config.{IsIsolated}
use sysbox_runc.Configs.HostIds.{
  IdMap, DeviceOwner, IdConfig, IdError, host_id_from_mapping, mapped_id, host_uid, host_gid,
  create, append_mappings, with_mappings, own_devices, setup_user_namespace,
}

-- A host ID that is found is the one that the mappings of the spec give.
pub host_id_from_mapping-maps_to :
    (id h : ℕ) (ms : List LinuxIdMapping)
    → host_id_from_mapping id (map create ms) ≡ some h
    → maps_to id h ms ≡ true
unfolding host_id_from_mapping maps_to covers
host_id_from_mapping-maps_to id h [] e = cc
host_id_from_mapping-maps_to id h (m ∷ ms) e = ground (arith, host_id_from_mapping-maps_to id h ms)

-- No host ID of a mapping is one of the other, given as the range from `host_id` on.
abbrev pub Disjoint : IdMap → IdMap → Type 0
Disjoint a b = (leb (a.host_id + a.size) b.host_id || leb (b.host_id + b.size) a.host_id) ≡ true

abbrev pub AreDisjoint : List IdMap → Type 0
AreDisjoint [] = Unit
AreDisjoint (m ∷ ms) = All (Disjoint m) ms × AreDisjoint ms

host_range :
    (id h : ℕ) (m : IdMap) (ms : List IdMap)
    → All (Disjoint m) ms
    → host_id_from_mapping id ms ≡ some h
    → (leb m.host_id h && ltb h (m.host_id + m.size)) ≡ false
unfolding host_id_from_mapping
host_range id h m [] d e = cc
host_range id h m (n ∷ ms) d e = ground (arith, host_range id h m ms d.1)

-- With mappings whose host ranges are disjoint, two container IDs never share a host ID.
pub host_id_from_mapping_injective :
    (i j h : ℕ) (ms : List IdMap)
    → AreDisjoint ms
    → host_id_from_mapping i ms ≡ some h
    → host_id_from_mapping j ms ≡ some h
    → i ≡ j
unfolding host_id_from_mapping
host_id_from_mapping_injective i j h [] d ei ej = cc
host_id_from_mapping_injective i j h (m ∷ ms) d ei ej = ground (
  arith,
  host_id_from_mapping_injective i j h ms d.1,
  host_range i h m ms d.0,
  host_range j h m ms d.0,
)

one_mapping :
    (given : Option (List IdMap)) (ms : List LinuxIdMapping) (m : LinuxIdMapping)
    → given ≡ none
    → ms ≡ m ∷ []
    → append_mappings given ms ≡ some (create m ∷ [])
unfolding append_mappings
one_mapping given ms m none_given one = rw (none_given, one) refl

root_of_one :
    (no_mappings no_mapping : IdError) (m : LinuxIdMapping)
    → m.container_id ≡ 0
    → id_range_min ≤ m.size
    → mapped_id no_mappings no_mapping 0 (some (create m ∷ [])) ≡ ok m.host_id
unfolding host_id_from_mapping
root_of_one no_mappings no_mapping m zero_id size = ground arith

root_uid :
    (c : IdConfig) (m : LinuxIdMapping)
    → contains_ns new_user c.namespaces ≡ true
    → c.uid_mappings ≡ some (create m ∷ [])
    → m.container_id ≡ 0
    → id_range_min ≤ m.size
    → host_uid c 0 ≡ ok m.host_id
unfolding host_uid
root_uid c m user one zero_id size =
    ground (arith, root_of_one IdError.no_uid_mappings IdError.no_user_mapping m zero_id size)

root_gid :
    (c : IdConfig) (m : LinuxIdMapping)
    → contains_ns new_user c.namespaces ≡ true
    → c.gid_mappings ≡ some (create m ∷ [])
    → m.container_id ≡ 0
    → id_range_min ≤ m.size
    → host_gid c 0 ≡ ok m.host_id
unfolding host_gid
root_gid c m user one zero_id size =
    ground (arith, root_of_one IdError.no_gid_mappings IdError.no_group_mapping m zero_id size)

-- A node whose user and group are the ID.
abbrev pub IsOwnedBy : ℕ → DeviceOwner → Type 0
IsOwnedBy id node = (node.uid ≡ id) × (node.gid ≡ id)

own_devices-IsOwnedBy :
    (id : ℕ) (devices : List DeviceOwner) → All (IsOwnedBy id) (own_devices id id devices)
unfolding own_devices
own_devices-IsOwnedBy id [] = tt
own_devices-IsOwnedBy id (node ∷ devices) = ((refl, refl), own_devices-IsOwnedBy id devices)

length-own_devices :
    (uid gid : ℕ) (devices : List DeviceOwner)
    → length (own_devices uid gid devices) ≡ length devices
unfolding own_devices
length-own_devices uid gid [] = refl
length-own_devices uid gid (node ∷ devices) = omega (arith, length-own_devices uid gid devices)

-- With isolated mappings, a user namespace in the list of namespaces and no mappings before, the
-- set-up succeeds: it keeps the number of device nodes, and each of them has as its user and as its
-- group the host ID of the one mapping, which is not the host's root.
pub setup_user_namespace-IsIsolated :
    (linux : Linux) (config : IdConfig) (v : IsIsolated linux)
    → contains_ns new_user config.namespaces ≡ true
    → config.uid_mappings ≡ none
    → config.gid_mappings ≡ none
    → (out : IdConfig) × (setup_user_namespace linux config ≡ ok out)
      × All (IsOwnedBy v.uid.host_id) out.devices
      × (length out.devices ≡ length config.devices)
      × (v.uid.host_id ≢ 0)
unfolding setup_user_namespace with_mappings
setup_user_namespace-IsIsolated linux config v user nu ng =
    let mapped = with_mappings linux config in
    let ou = one_mapping config.uid_mappings linux.uid_mappings v.uid nu v.one_uid in
    let og = one_mapping config.gid_mappings linux.gid_mappings v.gid ng v.one_gid in
    let uid = root_uid mapped v.uid user ou v.uid_from_zero v.uid_range in
    let gid = root_gid mapped v.gid user og v.gid_from_zero v.gid_range in
    (
      record mapped { devices = own_devices v.uid.host_id v.gid.host_id config.devices },
      ground (arith, uid, gid),
      subst (λ g. All (IsOwnedBy v.uid.host_id) (own_devices v.uid.host_id g config.devices))
          v.same_host_id (own_devices-IsOwnedBy v.uid.host_id config.devices),
      length-own_devices v.uid.host_id v.gid.host_id config.devices,
      v.not_root,
    )
