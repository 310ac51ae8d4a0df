-- ===== src/Configs/Validate/Rootless.antt =====
-- What the checks of rootless containers ensure: libcontainer/configs/validate/rootless.go.
use sysbox_runc.Prelude.{
  ◌≡◌, ◌≢◌, ◌⊎◌, inl, inr, refl, arith, true, Option, none, some, List, [], ◌∷◌, string_eq, nat_eq,
  All,
}
use sysbox_runc.Prelude.Int.{ℤ}
use sysbox_runc.Prelude.Text.{Text, split, runes}
use sysbox_runc.Configs.Namespaces.{new_user, contains_ns}
use sysbox_runc.Configs.HostIds.{IdMap}
use sysbox_runc.Configs.Validate.{Config, ValidateError, ◌then_check◌}
use sysbox_runc.Configs.Validate.Mounts.{
  rootless_euid, rootless_mappings, rootless_mounts, mappings_of, check_options, check_option,
  check_id, scan_int, has_id_mapping,
}

-- An option that gives an ID gives one that the mappings cover.
pub IsMapped : List IdMap → Option ℤ → Type 0
IsMapped mappings id = (id ≡ none) ⊎ ((n : ℤ) × (id ≡ some n) × (has_id_mapping n mappings ≡ true))

pub HasMappedIds : Config → Text → Type 0
HasMappedIds c opt =
    IsMapped (mappings_of c.uid_mappings) (scan_int (runes "uid=") opt)
    × IsMapped (mappings_of c.gid_mappings) (scan_int (runes "gid=") opt)

pub record IsRootless (c : Config) : Type 0 where
  pub listed_users : contains_ns new_user c.namespaces ≡ true
  pub uid_mapped : mappings_of c.uid_mappings ≢ []
  pub gid_mapped : mappings_of c.gid_mappings ≢ []
  pub mount_ids : All (λ data_text. All (HasMappedIds c) (split b',' data_text)) c.mounts

pub then_check-none : {a b : Option ValidateError} → a then_check b ≡ none → (a ≡ none) × (b ≡ none)
then_check-none {a = none} {b} h = (refl, h)
then_check-none {a = some e} {b} h = ground arith

check_id-IsMapped :
    (e : ValidateError) (mappings : List IdMap) (id : Option ℤ)
    → check_id e mappings id ≡ none
    → IsMapped mappings id
unfolding check_id IsMapped
check_id-IsMapped e mappings none h = inl refl
check_id-IsMapped e mappings (some n) h = inr (n, refl, ground arith)

check_options-HasMappedIds :
    (c : Config) (opts : List Text) → check_options c opts ≡ none → All (HasMappedIds c) opts
unfolding check_options check_option HasMappedIds
check_options-HasMappedIds c [] h = tt
check_options-HasMappedIds c (opt ∷ opts) h =
    let parts = then_check-none h in
    let ids = then_check-none parts.0 in
    (
      (check_id-IsMapped _ _ _ ids.0, check_id-IsMapped _ _ _ ids.1),
      check_options-HasMappedIds c opts parts.1,
    )

rootless_mounts_lem :
    (c : Config) (mounts : List Text)
    → rootless_mounts c mounts ≡ none
    → All (λ data_text. All (HasMappedIds c) (split b',' data_text)) mounts
unfolding rootless_mounts
rootless_mounts_lem c [] h = tt
rootless_mounts_lem c (data_text ∷ mounts) h =
    let parts = then_check-none h in
    (check_options-HasMappedIds c _ parts.0, rootless_mounts_lem c mounts parts.1)

rootless_mappings_lem :
    (c : Config)
    → rootless_mappings c ≡ none
    → (contains_ns new_user c.namespaces ≡ true)
      × (mappings_of c.uid_mappings ≢ [])
      × (mappings_of c.gid_mappings ≢ [])
unfolding rootless_mappings
rootless_mappings_lem c h = ground arith

pub rootless_euid-IsRootless : (c : Config) → rootless_euid c ≡ none → IsRootless c
unfolding rootless_euid
rootless_euid-IsRootless c h =
    let parts = then_check-none {a = rootless_mappings c} h in
    let users = rootless_mappings_lem c parts.0 in
    record {
      listed_users = users.0;
      uid_mapped = users.1;
      gid_mapped = users.2;
      mount_ids = rootless_mounts_lem c c.mounts parts.1;
    }
