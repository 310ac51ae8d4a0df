-- ===== src/Syscont/IdMappings.antt =====
-- The user-namespace ID mappings: `sortIDMappings` and `mergeIDMappings` of
-- libsysbox/syscont/utils.go, and `allocIDMappings`, `validateIDMappings` and `cfgIDMappings` of
-- libsysbox/syscont/spec.go. `sort.Slice` is an insertion sort: it may order mappings with one key
-- in another way.
pub mod Merge
pub mod Config
use sysbox_runc.Prelude.{
  ℕ, ◌≡◌, ◌+◌, ◌%◌, ◌^◌, ◌<◌, Bool, true, false, not, ◌&&◌, ◌||◌, List, [], ◌∷◌, ◌++◌, Result, ok,
  err, ◌>>=◌, if◌then◌else◌, ltb, leb, ◌==◌, nat_eq,
}
use sysbox_runc.Syscont.Spec.{LinuxIdMapping, Linux, Mgr}

abbrev pub id_range_min : ℕ
id_range_min = 65536

abbrev pub default_uid : ℕ
default_uid = 231072

abbrev pub default_gid : ℕ
default_gid = 231072

abbrev pub u32 : ℕ → ℕ
u32 n = n % 2 ^ 32

unfoldable pub mapping_less : Bool → LinuxIdMapping → LinuxIdMapping → Bool
mapping_less by_host_id a b =
    if by_host_id then ltb a.host_id b.host_id else ltb a.container_id b.container_id

unfoldable pub insert_mapping : Bool → LinuxIdMapping → List LinuxIdMapping → List LinuxIdMapping
insert_mapping by_host_id x [] = x ∷ []
insert_mapping by_host_id x (y ∷ ys) =
    if mapping_less by_host_id y x then y ∷ insert_mapping by_host_id x ys else x ∷ y ∷ ys

unfoldable pub sort_id_mappings : Bool → List LinuxIdMapping → List LinuxIdMapping
sort_id_mappings by_host_id [] = []
sort_id_mappings by_host_id (x ∷ xs) = insert_mapping by_host_id x (sort_id_mappings by_host_id xs)

pub data MappingError : Type 0 where
  container_ids_not_contiguous host_ids_not_contiguous : MappingError
  missing_mappings uid_range_too_small gid_range_too_small : MappingError
  uid_gid_differ uid_maps_to_root gid_maps_to_root : MappingError
  subid_allocation_failed : MappingError

-- The loop from the second mapping on: `prev` is the mapping before.
unfoldable pub merge_from :
    LinuxIdMapping
    → LinuxIdMapping
    → List LinuxIdMapping
    → Result MappingError (List LinuxIdMapping)
merge_from merged prev [] = ok (merged ∷ [])
merge_from merged prev (curr ∷ mappings) =
    let rest = merge_from (record merged { size = u32 (merged.size + curr.size) }) curr mappings in
    if not (curr.container_id == u32 (prev.container_id + prev.size))
    then err container_ids_not_contiguous
    else if not (curr.host_id == u32 (prev.host_id + prev.size))
    then err host_ids_not_contiguous
    else rest

-- The sorted mappings, from the first on.
unfoldable pub merge_sorted : List LinuxIdMapping → Result MappingError (List LinuxIdMapping)
merge_sorted [] = ok []
merge_sorted (first ∷ mappings) = merge_from first first mappings

unfoldable pub merge_id_mappings : List LinuxIdMapping → Result MappingError (List LinuxIdMapping)
merge_id_mappings [] = ok []
merge_id_mappings (x ∷ []) = ok (x ∷ [])
merge_id_mappings (x ∷ y ∷ mappings) = merge_sorted (sort_id_mappings false (x ∷ y ∷ mappings))

-- The checks of the first uid and gid mapping.
unfoldable pub check_mappings : LinuxIdMapping → LinuxIdMapping → Linux → Result MappingError Linux
check_mappings uid gid linux =
    if not (uid.container_id == 0) || ltb uid.size id_range_min
    then err uid_range_too_small
    else if not (gid.container_id == 0) || ltb gid.size id_range_min
    then err gid_range_too_small
    else if not (uid.host_id == gid.host_id)
    then err uid_gid_differ
    else if uid.host_id == 0
    then err uid_maps_to_root
    else if gid.host_id == 0
    then err gid_maps_to_root
    else ok linux

-- An index of 0 into an empty list would panic; `validate` never meets one.
unfoldable pub check_first : Linux → Result MappingError Linux
check_first linux = elim linux.uid_mappings [
  | [] ↦ err missing_mappings
  | uid ∷ _ ↦ elim linux.gid_mappings [
    | [] ↦ err missing_mappings
    | gid ∷ _ ↦ check_mappings uid gid linux
  ]
]

abbrev pub is_none : List LinuxIdMapping → Bool
is_none [] = true
is_none (_ ∷ _) = false

unfoldable pub validate_id_mappings : Linux → Result MappingError Linux
validate_id_mappings linux =
    if is_none linux.uid_mappings || is_none linux.gid_mappings then err missing_mappings else (do
      uids ← merge_id_mappings linux.uid_mappings
      gids ← merge_id_mappings linux.gid_mappings
      check_first (record linux { uid_mappings = uids; gid_mappings = gids }))

-- The mappings of sysbox-mgr, where it has some, replace those of the spec.
unfoldable pub override_mappings : Mgr → Linux → Linux
override_mappings mgr linux =
    if mgr.enabled
    then record linux {
      uid_mappings = if is_none mgr.uid_mappings then linux.uid_mappings else mgr.uid_mappings;
      gid_mappings = if is_none mgr.gid_mappings then linux.gid_mappings else mgr.gid_mappings;
    }
    else linux

-- `ReqSubid` of sysbox-mgr, a call of another process: the uid and gid that it gives, or an error.
module _ (req_subid : ℕ → Result MappingError (ℕ × ℕ)) where
  unfoldable pub subid : Mgr → Result MappingError (ℕ × ℕ)
  subid mgr = if mgr.enabled then req_subid id_range_min else ok (default_uid, default_gid)

  unfoldable pub alloc_id_mappings : Mgr → Linux → Result MappingError Linux
  alloc_id_mappings mgr linux = do
    ids ← subid mgr
    let uid_map : LinuxIdMapping = record { container_id = 0; host_id = ids.0; size = id_range_min }
    let gid_map : LinuxIdMapping = record { container_id = 0; host_id = ids.1; size = id_range_min }
    ok (record linux {
      uid_mappings = linux.uid_mappings ++ uid_map ∷ [];
      gid_mappings = linux.gid_mappings ++ gid_map ∷ [];
    })

  unfoldable pub cfg_id_mappings : Mgr → Linux → Result MappingError Linux
  cfg_id_mappings mgr linux =
      let given = override_mappings mgr linux in
      if is_none given.uid_mappings && is_none given.gid_mappings
      then alloc_id_mappings mgr given
      else validate_id_mappings given
