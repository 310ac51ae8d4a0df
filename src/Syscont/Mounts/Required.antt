-- ===== src/Syscont/Mounts/Required.antt =====
-- What is mounted where a system container needs its own mounts. The laws of the functions on slices
-- are their documented ones: what is left are the members of the first slice that no member of the
-- second compares to.
use text.Mathlib.Text.{starts_with}
use sysbox_runc.Prelude.{
  ◌≡◌, ◌∙◌, refl, arith, Bool, true, false, not, ◌&&◌, ◌||◌, List, [], ◌∷◌, ◌++◌, String, map, any,
  any-append, any_never, if◌then◌else◌, ◌==◌, string_eq, list_eq, nat_eq, All, All-map, contains,
  contains-append, inl, inr, Bool-cases,
}
use sysbox_runc.Syscont.Mounts.{
  Mount, MountSpec, syscont_mounts, syscont_must_be_rw_mounts, same_destination, below_destination,
  at, add_rw_mounts, adjust_option, cfg_syscont_mounts_read_only, remove_conflicts,
  cfg_syscont_mounts,
}

-- Where nothing but a mount of Sysbox may be.
unfoldable pub is_reserved : String → Bool
is_reserved d = any (λ r. d == r.destination) syscont_mounts || starts_with d "/sys/fs/cgroup/"

-- A mount of Sysbox but for its options.
unfoldable pub is_own : Mount → Bool
is_own m =
    any (λ r. (m.destination == r.destination) && (m.source == r.source) && (m.type == r.type))
      syscont_mounts

unfoldable pub is_foreign : Mount → Bool
is_foreign m = is_reserved m.destination && not (is_own m)

-- A mount of `/sys` or below it, at a destination that is reserved, and that can be written.
unfoldable pub is_writable_sys : Mount → Bool
is_writable_sys m =
    is_reserved m.destination
    && starts_with m.destination "/sys"
    && (contains m.options "rw" || not (contains m.options "ro"))

unfoldable pub is_mounted : String → List Mount → Bool
is_mounted d mounts = any (λ m. (m.destination == d) && is_own m) mounts

any-add_rw_mounts :
    (p : Mount → Bool) (ms mounts : List Mount)
    → any p ms ≡ false
    → any p mounts ≡ false
    → any p (add_rw_mounts ms mounts) ≡ false
unfolding add_rw_mounts
any-add_rw_mounts p [] mounts hm h = h
any-add_rw_mounts p (m ∷ ms) mounts hm h = ground (
  arith,
  any-add_rw_mounts p ms mounts,
  any-add_rw_mounts p ms (mounts ++ m ∷ []),
  any-append p mounts (m ∷ []),
)

module _ (mount_slice_remove : List Mount → List Mount → (Mount → Mount → Bool) → List Mount)
    (removes : (s t : List Mount) (cmp : Mount → Mount → Bool) (p : Mount → Bool)
      → any p (mount_slice_remove s t cmp) ≡ any (λ m. p m && not (any (cmp m) t)) s)
    (mount_slice_contains : List Mount → Mount → (Mount → Mount → Bool) → Bool)
    (string_slice_remove : List String → List String → List String)
    (drops : (xs ys : List String) (t : String)
      → contains (string_slice_remove xs ys) t ≡ (contains xs t && not (contains ys t))) where
  abbrev cfg : Bool → MountSpec → MountSpec
  cfg = cfg_syscont_mounts mount_slice_remove mount_slice_contains string_slice_remove

  abbrev free : MountSpec → List Mount
  free spec =
      (remove_conflicts mount_slice_remove mount_slice_contains string_slice_remove spec).mounts

  abbrev adjusted : Bool → List Mount
  adjusted relaxed =
      map (adjust_option mount_slice_remove mount_slice_contains string_slice_remove relaxed)
        syscont_mounts

  -- A test that only mounts at reserved destinations pass fails for all that are left.
  free-is_reserved :
      (p : Mount → Bool) (spec : MountSpec)
      → ((m : Mount) → p m ≡ (p m && is_reserved m.destination))
      → any p (free spec) ≡ false
  unfolding remove_conflicts is_reserved
  free-is_reserved p spec h =
      removes (mount_slice_remove spec.mounts (at "/sys/fs/cgroup/" ∷ []) below_destination)
        syscont_mounts same_destination p
      ∙ removes spec.mounts (at "/sys/fs/cgroup/" ∷ []) below_destination
          (λ m. p m && not (any (same_destination m) syscont_mounts))
      ∙ any_never
          (λ m.
            (p m && not (any (same_destination m) syscont_mounts))
            && not (any (below_destination m) (at "/sys/fs/cgroup/" ∷ [])))
          spec.mounts (λ m. ground (arith, h m))

  -- The mounts of a system container, given those that a test finds in its parts.
  any-cfg :
      (p : Mount → Bool) (relaxed : Bool) (spec : MountSpec)
      → ((m : Mount) → p m ≡ (p m && is_reserved m.destination))
      → any p syscont_must_be_rw_mounts ≡ false
      → any p (if spec.read_only_root then adjusted relaxed else syscont_mounts) ≡ false
      → any p (cfg relaxed spec).mounts ≡ false
  unfolding cfg_syscont_mounts cfg_syscont_mounts_read_only
  any-cfg p relaxed spec h rw own = elim (Bool-cases spec.read_only_root) [
    | inl read_only ↦ ground (
      arith,
      any-append p (add_rw_mounts syscont_must_be_rw_mounts (free spec)) (adjusted relaxed),
      any-add_rw_mounts p syscont_must_be_rw_mounts (free spec) rw (free-is_reserved p spec h),
    )
    | inr writable ↦
        ground (arith, any-append p (free spec) syscont_mounts, free-is_reserved p spec h)
  ]

  own_adjusted : (relaxed : Bool) → any is_foreign (adjusted relaxed) ≡ false
  unfolding is_foreign is_own is_reserved adjust_option syscont_mounts
  own_adjusted true = refl
  own_adjusted false = refl

  own_lem :
      (read_only relaxed : Bool)
      → any is_foreign (if read_only then adjusted relaxed else syscont_mounts) ≡ false
  unfolding is_foreign is_own is_reserved syscont_mounts
  own_lem true relaxed = own_adjusted relaxed
  own_lem false relaxed = refl

  rw_mounts_lem : any is_foreign syscont_must_be_rw_mounts ≡ false
  unfolding is_foreign is_own is_reserved syscont_mounts syscont_must_be_rw_mounts
  rw_mounts_lem = refl

  -- The mounts of Sysbox, which a read-only root gives other options below `/sys`.
  abbrev pub own_mounts : Bool → Bool → List Mount
  own_mounts read_only relaxed = if read_only then adjusted relaxed else syscont_mounts

  own_reserved :
      (p : Mount → Bool) (read_only relaxed : Bool)
      → any (λ m. is_reserved m.destination && p m) (own_mounts read_only relaxed)
        ≡ any p (own_mounts read_only relaxed)
  unfolding is_reserved adjust_option syscont_mounts
  own_reserved p true true = refl
  own_reserved p true false = refl
  own_reserved p false relaxed = refl

  rw_unreserved :
      (p : Mount → Bool)
      → any (λ m. is_reserved m.destination && p m) syscont_must_be_rw_mounts ≡ false
  unfolding is_reserved syscont_mounts syscont_must_be_rw_mounts
  rw_unreserved p = refl

  -- A test finds a mount at a reserved destination just where it finds it in the mounts of Sysbox.
  reserved_lem :
      (p : Mount → Bool) (relaxed : Bool) (spec : MountSpec)
      → any (λ m. is_reserved m.destination && p m) (cfg relaxed spec).mounts
        ≡ any p (own_mounts spec.read_only_root relaxed)
  unfolding cfg_syscont_mounts cfg_syscont_mounts_read_only
  reserved_lem p relaxed spec =
      let q = λ (m : Mount). is_reserved m.destination && p m in
      let left = free-is_reserved q spec (λ m. ground arith) in
      let own = own_reserved p spec.read_only_root relaxed in
      elim (Bool-cases spec.read_only_root) [
        | inl read_only ↦ ground (
          arith,
          own,
          any-append q (add_rw_mounts syscont_must_be_rw_mounts (free spec)) (adjusted relaxed),
          any-add_rw_mounts q syscont_must_be_rw_mounts (free spec) (rw_unreserved p) left,
        )
        | inr writable ↦ ground (arith, own, left, any-append q (free spec) syscont_mounts)
      ]

  -- After `cfgSyscontMounts`, with a read-only root or not, every mount at a destination of Sysbox's
  -- mounts or below `/sys/fs/cgroup/` has the destination, the source and the type of a mount of
  -- Sysbox, and a test, which may look at the options too, finds one there just if it finds one in the
  -- list of Sysbox's mounts, whose options are adjusted for a read-only root: whatever of them the
  -- spec had there is gone.
  pub no_foreign_mounts :
      (relaxed : Bool) (spec : MountSpec) (p : Mount → Bool)
      → (any is_foreign (cfg relaxed spec).mounts ≡ false)
        × (any (λ m. is_reserved m.destination && p m) (cfg relaxed spec).mounts
            ≡ any p (own_mounts spec.read_only_root relaxed))
  no_foreign_mounts relaxed spec p = (
    any-cfg is_foreign relaxed spec (λ m. unfold is_foreign in ground arith) rw_mounts_lem
        (own_lem spec.read_only_root relaxed),
    reserved_lem p relaxed spec,
  )

  sys_adjusted : any is_writable_sys (adjusted false) ≡ false
  unfolding is_writable_sys is_reserved adjust_option syscont_mounts
  sys_adjusted =
      let kept = string_slice_remove ("noexec" ∷ "nosuid" ∷ "nodev" ∷ []) ("rw" ∷ []) in
      ground (
        arith,
        contains-append kept ("ro" ∷ []) "rw",
        contains-append kept ("ro" ∷ []) "ro",
        drops ("noexec" ∷ "nosuid" ∷ "nodev" ∷ []) ("rw" ∷ []) "rw",
      )

  rw_sys_lem : any is_writable_sys syscont_must_be_rw_mounts ≡ false
  unfolding is_writable_sys is_reserved syscont_mounts syscont_must_be_rw_mounts
  rw_sys_lem = refl

  -- After `cfgSyscontMounts` with a read-only root that is not relaxed, every mount whose destination is
  -- reserved and begins with `/sys` has the option `ro` and not the option `rw`.
  pub no_writable_sys :
      (spec : MountSpec)
      → spec.read_only_root ≡ true
      → any is_writable_sys (cfg false spec).mounts ≡ false
  no_writable_sys spec read_only =
      any-cfg is_writable_sys false spec (λ m. unfold is_writable_sys in ground arith) rw_sys_lem
        (ground (arith, sys_adjusted))

  present_lem :
      (d : String) (relaxed : Bool) (spec : MountSpec)
      → is_mounted d (if spec.read_only_root then adjusted relaxed else syscont_mounts) ≡ true
      → is_mounted d (cfg relaxed spec).mounts ≡ true
  unfolding is_mounted cfg_syscont_mounts cfg_syscont_mounts_read_only
  present_lem d relaxed spec own = elim (Bool-cases spec.read_only_root) [
    | inl read_only ↦ ground (
      arith,
      any-append (λ m. (m.destination == d) && is_own m)
          (add_rw_mounts syscont_must_be_rw_mounts (free spec)) (adjusted relaxed),
    )
    | inr writable ↦
        ground
          (arith, any-append (λ m. (m.destination == d) && is_own m) (free spec) syscont_mounts)
  ]

  own_present :
      (read_only relaxed : Bool)
      → All
          (λ r.
            is_mounted r.destination (if read_only then adjusted relaxed else syscont_mounts)
            ≡ true)
          syscont_mounts
  unfolding is_mounted is_own adjust_option syscont_mounts
  own_present true true = (refl, (refl, (refl, (refl, (refl, tt)))))
  own_present true false = (refl, (refl, (refl, (refl, (refl, tt)))))
  own_present false relaxed = (refl, (refl, (refl, (refl, (refl, tt)))))

  -- After `cfgSyscontMounts`, every mount of Sysbox is in the spec, but for its options.
  pub required_mounted :
      (relaxed : Bool) (spec : MountSpec)
      → All (λ r. is_mounted r.destination (cfg relaxed spec).mounts ≡ true) syscont_mounts
  required_mounted relaxed spec =
      All-map syscont_mounts (λ r. present_lem r.destination relaxed spec)
        (own_present spec.read_only_root relaxed)
