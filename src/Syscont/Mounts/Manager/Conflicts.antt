-- ===== src/Syscont/Mounts/Manager/Conflicts.antt =====
-- What sysbox-mgr adds to the mounts of a spec. The law of the function on slices is its documented
-- one: what is left are the members of the first slice that no member of the second compares to.
use sysbox_runc.Prelude.{
  ◌≡◌, ◌∙◌, refl, ap, subst, arith, Bool, true, false, not, ◌&&◌, ◌||◌, none, List, [], ◌∷◌, ◌++◌,
  String, Result, ok, value_of, ok_inj, map, any, any_never, reverse, if◌then◌else◌, ◌==◌,
  string_eq, lookup, delete, lookup-delete,
}
use sysbox_runc.Prelude.Text.{Text}
use sysbox_runc.Syscont.Mounts.{Mount, MountSpec, same_destination}
use sysbox_runc.Syscont.Mounts.Manager.{
  SpecialDirs, Manager, prep_list, no_error, read_only_mount, add_mgr_mounts, request_mounts,
  prepare_mounts, sys_mgr_setup_mounts,
}

abbrev binds : String → Mount → Bool
binds d m = (m.destination == d) && (m.type == "bind")

-- A special directory is left for sysbox-mgr to make unless the spec binds something there.
prep_list-left :
    (d : String) (ms : List Mount) (dirs : SpecialDirs) (prep : List Text)
    → lookup d (prep_list ms dirs prep).0 ≡ (if any (binds d) ms then none else lookup d dirs)
unfolding prep_list
prep_list-left d [] dirs prep = refl
prep_list-left d (m ∷ ms) dirs prep = ground (
  arith,
  prep_list-left d ms dirs prep,
  prep_list-left d ms (delete m.destination dirs) (prep ++ m.source ∷ []),
  lookup-delete m.destination d dirs,
  string_eq.beq_iff m.destination d,
)

module _ (mount_slice_remove : List Mount → List Mount → (Mount → Mount → Bool) → List Mount)
    (removes : (s t : List Mount) (cmp : Mount → Mount → Bool) (p : Mount → Bool)
      → any p (mount_slice_remove s t cmp) ≡ any (λ m. p m && not (any (cmp m) t)) s)
    (string_slice_remove : List String → List String → List String) where
  conflicts-map :
      (given ms : List Mount)
      → any
          (λ m. any (same_destination m) given)
          (map (read_only_mount mount_slice_remove string_slice_remove) ms)
        ≡ any (λ m. any (same_destination m) given) ms
  unfolding read_only_mount
  conflicts-map given [] = refl
  conflicts-map given (m ∷ ms) =
      ap (λ b. any (same_destination m) given || b) (conflicts-map given ms)

  no_conflict :
      (given ms : List Mount)
      → any (λ m. any (same_destination m) given) (mount_slice_remove ms given same_destination)
        ≡ false
  no_conflict given ms =
      removes ms given same_destination (λ m. any (same_destination m) given)
      ∙ any_never (λ m. any (same_destination m) given && not (any (same_destination m) given)) ms
          (λ m. ground arith)

  abbrev pub Extends : MountSpec → MountSpec → Type 0
  Extends spec out =
      (added : List Mount) × ((out.mounts ≡ spec.mounts ++ added)
        × (any (λ m. any (same_destination m) spec.mounts) added ≡ false))

  add_mgr_mounts-Extends :
      (relaxed : Bool) (m : List Mount) (spec : MountSpec)
      → Extends spec (add_mgr_mounts mount_slice_remove string_slice_remove relaxed m spec)
  unfolding add_mgr_mounts
  add_mgr_mounts-Extends relaxed m spec = (
    if spec.read_only_root && not relaxed
        then map (read_only_mount mount_slice_remove string_slice_remove)
            (mount_slice_remove m spec.mounts same_destination)
        else mount_slice_remove m spec.mounts same_destination,
    (
      refl,
      ground (
        arith,
        conflicts-map spec.mounts (mount_slice_remove m spec.mounts same_destination),
        no_conflict spec.mounts m,
      ),
    ),
  )

  -- If the mounts of sysbox-mgr are set up, the spec keeps its mounts, and those that follow are at
  -- other destinations.
  pub sys_mgr_setup_mounts-Extends :
      (mgr : Manager) (relaxed : Bool) (special : Result String SpecialDirs) (spec out : MountSpec)
      → sys_mgr_setup_mounts mount_slice_remove string_slice_remove mgr true relaxed special spec
        ≡ ok out
      → Extends spec out
  unfolding sys_mgr_setup_mounts request_mounts
  sys_mgr_setup_mounts-Extends mgr relaxed special spec out h =
      let dirs = value_of special _ out h in
      let left = prep_list (reverse spec.mounts) dirs.0 [] in
      let prepared =
        value_of (no_error (prepare_mounts mount_slice_remove string_slice_remove mgr left.1)) _ out
          dirs.1.1 in
      let mounts = value_of (mgr.req_mounts left.0) _ out prepared.1.1 in
      subst (Extends spec) (ok_inj mounts.1.1) (add_mgr_mounts-Extends relaxed mounts.0 spec)
