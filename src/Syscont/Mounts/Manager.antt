-- ===== src/Syscont/Mounts/Manager.antt =====
-- The mounts that sysbox-mgr sets up: `sysMgrSetupMounts` of libsysbox/syscont/spec.go. The special
-- directories with their kinds are given (`getSpecialDirs` reads the container's files), and so are the
-- answers of sysbox-mgr. Go's order of the special directories is that of the list.
pub mod Conflicts
use sysbox_runc.Prelude.{
  ℕ, ◌≡◌, ◌∙◌, refl, sym, ap, subst, arith, Bool, true, false, not, ◌&&◌, ◌||◌, Option, none, some,
  List, [], ◌∷◌, ◌++◌, String, Result, ok, err, ◌>>=◌, value_of, ok_inj, map, any, any-append,
  any_never, reverse, if◌then◌else◌, ◌==◌, string_eq, contains, contains-append, lookup, delete,
  lookup-delete, inl, inr, Bool-cases,
}
use sysbox_runc.Prelude.Text.{Text}
use sysbox_runc.Syscont.Mounts.{Mount, MountSpec, same_destination}

-- Destinations and their kinds.
abbrev pub SpecialDirs : Type 0
SpecialDirs = List (String × ℕ)

abbrev pub is_special : SpecialDirs → Mount → Bool
is_special dirs m = elim (lookup m.destination dirs) [ none ↦ false | some _ ↦ true ]

-- The loop from the last mount to the first, on the reversed list: what is left of the special
-- directories, and the sources to prepare.
unfoldable pub prep_list : List Mount → SpecialDirs → List Text → SpecialDirs × List Text
prep_list [] dirs prep = (dirs, prep)
prep_list (m ∷ ms) dirs prep =
    let taken = prep_list ms (delete m.destination dirs) (prep ++ m.source ∷ []) in
    let other = prep_list ms dirs prep in
    if (m.type == "bind") && is_special dirs m then taken else other

-- What sysbox-mgr answers: to a request to prepare sources, and to one for mounts.
pub record Manager : Type 0 where
  pub prep_mounts : List Text → Option String
  pub req_mounts : SpecialDirs → Result String (List Mount)

abbrev pub is_empty_list : List Text → Bool
is_empty_list [] = true
is_empty_list (_ ∷ _) = false

abbrev pub no_error : Option String → Result String Bool
no_error none = ok true
no_error (some e) = err e

module _ (mount_slice_remove : List Mount → List Mount → (Mount → Mount → Bool) → List Mount)
    (string_slice_remove : List String → List String → List String) where
  unfoldable pub read_only_mount : Mount → Mount
  read_only_mount m = record m { options = string_slice_remove m.options ("rw" ∷ []) ++ "ro" ∷ [] }

  -- The mounts of sysbox-mgr that do not conflict with the spec's, after those.
  unfoldable pub add_mgr_mounts : Bool → List Mount → MountSpec → MountSpec
  add_mgr_mounts relaxed m spec =
      let mounts = mount_slice_remove m spec.mounts same_destination in
      record spec {
        mounts =
            spec.mounts
            ++ (if spec.read_only_root && not relaxed then map read_only_mount mounts else mounts);
      }

  unfoldable pub request_mounts : Manager → Bool → SpecialDirs → MountSpec → Result String MountSpec
  request_mounts mgr relaxed dirs spec = do
    m ← mgr.req_mounts dirs
    ok (add_mgr_mounts relaxed m spec)

  unfoldable pub prepare_mounts : Manager → List Text → Option String
  prepare_mounts mgr prep = if is_empty_list prep then none else mgr.prep_mounts prep

  unfoldable pub sys_mgr_setup_mounts :
      Manager → Bool → Bool → Result String SpecialDirs → MountSpec → Result String MountSpec
  sys_mgr_setup_mounts mgr syscont_mode relaxed special spec = do
    dirs ← special
    let left = prep_list (reverse spec.mounts) dirs []
    prepared ← no_error (prepare_mounts mgr left.1)
    if syscont_mode then request_mounts mgr relaxed left.0 spec else ok spec
