-- ===== src/Syscont/Mounts/Systemd.antt =====
-- The mounts of a system container with systemd. The law of the function on slices is its documented
-- one: what is left are the members of the first slice that no member of the second compares to.
use sysbox_runc.Prelude.{
  ◌≡◌, ◌∙◌, arith, Bool, true, false, not, ◌&&◌, List, String, any, any-append, any_never, any_and,
  any-true_of, any-false_of, sym, ◌==◌, string_eq, inl, inr, Bool-cases, eq_of_beq,
}
use sysbox_runc.Prelude.Text.{Text}
use sysbox_runc.Syscont.Mounts.{Mount, MountSpec, is_other_fs, is_own_tmpfs, cfg_systemd_mounts}

abbrev is_at : String → Mount → Bool
is_at d m = m.destination == d

unfoldable pub is_tmpfs : Mount → Bool
is_tmpfs m = m.type == "tmpfs"

-- At the destination of one of the mounts for systemd, and no tmpfs.
unfoldable pub clashes : List Mount → Mount → Bool
clashes ms n = any (λ r. n.destination == r.destination) ms && not (is_tmpfs n)

module _ (mount_slice_remove : List Mount → List Mount → (Mount → Mount → Bool) → List Mount)
    (removes : (s t : List Mount) (cmp : Mount → Mount → Bool) (p : Mount → Bool)
      → any p (mount_slice_remove s t cmp) ≡ any (λ m. p m && not (any (cmp m) t)) s)
    (join_path : Text → Text → Text) where
  abbrev result : List Mount → MountSpec → List Mount
  result ms spec = (cfg_systemd_mounts mount_slice_remove join_path ms spec).1.mounts

  abbrev kept : List Mount → MountSpec → List Mount
  kept ms spec = mount_slice_remove spec.mounts ms is_other_fs

  abbrev wanted : List Mount → MountSpec → List Mount
  wanted ms spec = mount_slice_remove ms (kept ms spec) is_own_tmpfs

  -- If the mounts for systemd are all tmpfs, only tmpfs mounts are left at their destinations.
  pub systemd_mounts_tmpfs :
      (ms : List Mount) (spec : MountSpec)
      → any (λ n. not (is_tmpfs n)) ms ≡ false
      → any (clashes ms) (result ms spec) ≡ false
  unfolding cfg_systemd_mounts clashes is_tmpfs
  systemd_mounts_tmpfs ms spec h =
      any-append (clashes ms) (kept ms spec) (wanted ms spec) ∙ ground (arith, kept_lem, wanted_lem)
    where
      kept_lem : any (clashes ms) (kept ms spec) ≡ false
      kept_lem =
          removes spec.mounts ms is_other_fs (clashes ms)
          ∙ any_never (λ n. clashes ms n && not (any (is_other_fs n) ms)) spec.mounts
              (λ n.
                ground (arith, any_and (λ r. n.destination == r.destination) (not (is_tmpfs n)) ms))

      wanted_lem : any (clashes ms) (wanted ms spec) ≡ false
      wanted_lem =
          removes ms (kept ms spec) is_own_tmpfs (clashes ms)
          ∙ any-false_of (λ n. clashes ms n && not (any (is_own_tmpfs n) (kept ms spec)))
              (λ n. not (is_tmpfs n)) ms (λ n holds. ground arith) h

  -- A tmpfs mount of the spec is kept.
  pub systemd_mounts_kept :
      (ms : List Mount) (spec : MountSpec) (p : Mount → Bool)
      → any (λ m. p m && is_tmpfs m) spec.mounts ≡ true
      → any p (result ms spec) ≡ true
  unfolding cfg_systemd_mounts is_tmpfs
  systemd_mounts_kept ms spec p h =
      any-append p (kept ms spec) (wanted ms spec)
      ∙ ground (
        arith,
        removes spec.mounts ms is_other_fs p,
        any-true_of (λ m. p m && is_tmpfs m) (λ m. p m && not (any (is_other_fs m) ms)) spec.mounts
            (λ m holds.
              ground (arith, any_and (λ r. m.destination == r.destination) (not (is_tmpfs m)) ms))
            h,
      )

  -- Every destination of a mount for systemd is mounted in the end.
  pub systemd_mounted :
      (ms : List Mount) (spec : MountSpec) (d : String)
      → any (is_at d) ms ≡ true
      → any (is_at d) (result ms spec) ≡ true
  unfolding cfg_systemd_mounts
  systemd_mounted ms spec d h =
      any-append (is_at d) (kept ms spec) (wanted ms spec)
      ∙ elim (Bool-cases (any (is_at d) (kept ms spec))) [
        | inl there ↦ ground arith
        | inr free ↦ ground (arith, wanted_at free)
      ]
    where
      wanted_at : any (is_at d) (kept ms spec) ≡ false → any (is_at d) (wanted ms spec) ≡ true
      wanted_at free =
          removes ms (kept ms spec) is_own_tmpfs (is_at d)
          ∙ any-true_of (is_at d) (λ m. is_at d m && not (any (is_own_tmpfs m) (kept ms spec))) ms
              (λ m at_d. ground (arith, no_tmpfs m at_d)) h
        where
          no_tmpfs : (m : Mount) → is_at d m ≡ true → any (is_own_tmpfs m) (kept ms spec) ≡ false
          no_tmpfs m at_d =
              any-false_of (is_own_tmpfs m) (is_at d) (kept ms spec)
                (λ r holds. (string_eq.beq_iff r.destination d).1 (
                  sym (eq_of_beq m.destination r.destination (ground arith))
                  ∙ eq_of_beq m.destination d at_d))
                free
