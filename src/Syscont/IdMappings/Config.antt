-- ===== src/Syscont/IdMappings/Config.antt =====
-- What the configured mappings satisfy.
use sysbox_runc.Prelude.{
  ℕ, ◌≡◌, ◌≢◌, ◌∙◌, sym, subst, refl, ◌+◌, ◌≤◌, ◌⊎◌, true, false, ◌&&◌, ◌||◌, List, [], ◌∷◌, Result,
  ok, err, ◌>>=◌, if◌then◌else◌, nat_eq, arith, Bool-cases, inl, inr,
}
use sysbox_runc.Syscont.Spec.{LinuxIdMapping, Linux, Mgr}
use sysbox_runc.Syscont.IdMappings.{
  u32, is_none, id_range_min, default_uid, default_gid, merge_from, merge_sorted, sort_id_mappings,
  merge_id_mappings, check_mappings, check_first, validate_id_mappings, subid, alloc_id_mappings,
  override_mappings, cfg_id_mappings, MappingError, insert_mapping,
}

-- One range of at least 65536 IDs from container ID 0, the same host ID for users and groups, and
-- not the host's root.
pub record IsIsolated (linux : Linux) : Type 0 where
  pub uid : LinuxIdMapping
  pub gid : LinuxIdMapping
  pub one_uid : linux.uid_mappings ≡ uid ∷ []
  pub one_gid : linux.gid_mappings ≡ gid ∷ []
  pub uid_from_zero : uid.container_id ≡ 0
  pub gid_from_zero : gid.container_id ≡ 0
  pub uid_range : id_range_min ≤ uid.size
  pub gid_range : id_range_min ≤ gid.size
  pub same_host_id : uid.host_id ≡ gid.host_id
  pub not_root : uid.host_id ≢ 0

-- The one mapping of a list.
abbrev Single : List LinuxIdMapping → Type 0
Single ms = (m : LinuxIdMapping) × (ms ≡ m ∷ [])

merge_from-Single :
    (merged prev : LinuxIdMapping) (ms : List LinuxIdMapping) {out : List LinuxIdMapping}
    → merge_from merged prev ms ≡ ok out
    → Single out
unfolding merge_from
merge_from-Single merged prev [] e = (merged, ground arith)
merge_from-Single merged prev (m ∷ ms) {out} e =
    merge_from-Single (record merged { size = u32 (merged.size + m.size) }) m ms {out = out}
      (ground arith)

merge_sorted-Single :
    (ms : List LinuxIdMapping) {out : List LinuxIdMapping}
    → is_none ms ≡ false
    → merge_sorted ms ≡ ok out
    → Single out
unfolding merge_sorted
merge_sorted-Single [] some_ms e = cc
merge_sorted-Single (m ∷ ms) some_ms e = merge_from-Single m m ms e

insert-is_none :
    (x : LinuxIdMapping) (ys : List LinuxIdMapping) → is_none (insert_mapping false x ys) ≡ false
unfolding insert_mapping
insert-is_none x [] = refl
insert-is_none x (y ∷ ys) = ground arith

merge_id_mappings-Single :
    (ms : List LinuxIdMapping) {out : List LinuxIdMapping}
    → is_none ms ≡ false
    → merge_id_mappings ms ≡ ok out
    → Single out
unfolding merge_id_mappings
merge_id_mappings-Single [] some_ms e = cc
merge_id_mappings-Single (x ∷ []) some_ms e = (x, ground arith)
merge_id_mappings-Single (x ∷ y ∷ ms) some_ms e =
    merge_sorted-Single (sort_id_mappings false (x ∷ y ∷ ms))
      (unfold sort_id_mappings in insert-is_none x _) e

-- The checks in one: what they ask of the two mappings, and that they change nothing.
check_mappings-ok :
    (u g : LinuxIdMapping) (linux : Linux) {out : Linux}
    → check_mappings u g linux ≡ ok out
    → (out ≡ linux)
      × (u.container_id ≡ 0)
      × (g.container_id ≡ 0)
      × (id_range_min ≤ u.size)
      × (id_range_min ≤ g.size)
      × (u.host_id ≡ g.host_id)
      × (u.host_id ≢ 0)
unfolding check_mappings
check_mappings-ok u g linux e = ground arith

check_first-single :
    (linux : Linux) (u g : LinuxIdMapping)
    → linux.uid_mappings ≡ u ∷ []
    → linux.gid_mappings ≡ g ∷ []
    → check_first linux ≡ check_mappings u g linux
unfolding check_first
check_first-single linux u g pu pg = ground arith

check_first-IsIsolated :
    (linux : Linux) {out : Linux}
    → Single linux.uid_mappings
    → Single linux.gid_mappings
    → check_first linux ≡ ok out
    → IsIsolated out
check_first-IsIsolated linux (u, pu) (g, pg) e =
    let checked = check_mappings-ok u g linux (sym (check_first-single linux u g pu pg) ∙ e) in
    subst IsIsolated (sym checked.0) (record {
      uid = u;
      gid = g;
      one_uid = pu;
      one_gid = pg;
      uid_from_zero = checked.1;
      gid_from_zero = checked.2;
      uid_range = checked.3;
      gid_range = checked.4;
      same_host_id = checked.5;
      not_root = checked.6;
    })

>>=-ok :
    {A B : Type 0} (m : Result MappingError A) (k : A → Result MappingError B) {out : B}
    → (m >>= k) ≡ ok out
    → (v : A) × (m ≡ ok v) × (k v ≡ ok out)
>>=-ok (ok a) f e = (a, refl, e)
>>=-ok (err _) f e = cc

validate_test :
    (linux : Linux) {out : Linux}
    → validate_id_mappings linux ≡ ok out
    → (is_none linux.uid_mappings ≡ false)
      × (is_none linux.gid_mappings ≡ false)
      × ((merge_id_mappings linux.uid_mappings >>= λ uids.
            merge_id_mappings linux.gid_mappings >>= λ gids.
            check_first (record linux { uid_mappings = uids; gid_mappings = gids }))
          ≡ ok out)
unfolding validate_id_mappings
validate_test linux e =
    elim (Bool-cases (is_none linux.uid_mappings || is_none linux.gid_mappings)) [
      | inl missing ↦ absurd (ground arith)
      | inr given ↦ (ground arith, ground arith, rw given at e)
    ]

-- If the validation succeeds, there is one mapping for users and one for groups, from container ID
-- 0, of at least 65536 IDs, to one and the same host ID, which is not 0.
pub validate_id_mappings-IsIsolated :
    (linux : Linux) {out : Linux} → validate_id_mappings linux ≡ ok out → IsIsolated out
validate_id_mappings-IsIsolated linux e =
    let (some_uids, some_gids, merged) = validate_test linux e in
    let (uids, mu, merged') = >>=-ok (merge_id_mappings linux.uid_mappings) _ merged in
    let (gids, mg, checked) = >>=-ok (merge_id_mappings linux.gid_mappings) _ merged' in
    check_first-IsIsolated (record linux { uid_mappings = uids; gid_mappings = gids })
      (merge_id_mappings-Single linux.uid_mappings some_uids mu)
      (merge_id_mappings-Single linux.gid_mappings some_gids mg) checked

module _ (req_subid : ℕ → Result MappingError (ℕ × ℕ)) where
  alloc-ok :
      (mgr : Mgr) (linux : Linux) {out : Linux}
      → is_none linux.uid_mappings ≡ true
      → is_none linux.gid_mappings ≡ true
      → alloc_id_mappings req_subid mgr linux ≡ ok out
      → (ids : ℕ × ℕ) × ((if mgr.enabled
            then req_subid id_range_min
            else ok (default_uid, default_gid))
          ≡ ok ids)
        × (out.uid_mappings
            ≡ record { container_id = 0; host_id = ids.0; size = id_range_min } ∷ [])
        × (out.gid_mappings
            ≡ record { container_id = 0; host_id = ids.1; size = id_range_min } ∷ [])
  unfolding alloc_id_mappings subid
  alloc-ok mgr linux nu ng e =
      let (ids, given, done) =
        >>=-ok (if mgr.enabled then req_subid id_range_min else ok (default_uid, default_gid)) _
          e in
      (ids, given, ground arith, ground arith)

  -- If the configuration of the mappings succeeds, the mappings isolate the container, or they are
  -- one range for users and one for groups: the IDs of sysbox-mgr, or the defaults without it.
  pub cfg_id_mappings_cases :
      (mgr : Mgr) (linux : Linux) {out : Linux}
      → cfg_id_mappings req_subid mgr linux ≡ ok out
      → IsIsolated out
        ⊎ ((ids : ℕ × ℕ) × ((if mgr.enabled
                then req_subid id_range_min
                else ok (default_uid, default_gid))
              ≡ ok ids)
            × (out.uid_mappings
                ≡ record { container_id = 0; host_id = ids.0; size = id_range_min } ∷ [])
            × (out.gid_mappings
                ≡ record { container_id = 0; host_id = ids.1; size = id_range_min } ∷ []))
  unfolding cfg_id_mappings
  cfg_id_mappings_cases mgr linux e =
      let given = override_mappings mgr linux in
      elim (Bool-cases (is_none given.uid_mappings && is_none given.gid_mappings)) [
        | inl none_given ↦
            inr (alloc-ok mgr given (ground arith) (ground arith) (rw none_given at e))
        | inr some_given ↦ inl (validate_id_mappings-IsIsolated given (rw some_given at e))
      ]
