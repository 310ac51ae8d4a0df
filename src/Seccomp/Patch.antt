-- ===== src/Seccomp/Patch.antt =====
-- `isAllowAction`, `generatePatch`, `enosysPatchFilter` and `filterFlags` of
-- libcontainer/seccomp/patchbpf/enosys_linux.go, without the texts of the errors. The filter is that
-- of libseccomp, as a list of instructions.
pub mod Filtered
pub mod Named
use Prim.Native.Nat.{bit_or}
use sysbox_runc.Prelude.{
  ℕ, ◌≡◌, Bool, true, false, ◌&&◌, Option, none, some, List, [], ◌∷◌, ◌++◌, Result, ok, err, ◌>>=◌,
  if◌then◌else◌, ◌==◌, nat_eq, leb, lookup, IsMap,
}
use sysbox_runc.Specconv.Seccomp.{Action, allow, log, trace, notify, Call, Profile}
use sysbox_runc.Seccomp.Bpf.{Instruction}
use sysbox_runc.Seccomp.Arch.{Libseccomp, PatchError}
use sysbox_runc.Seccomp.LastSyscalls.{LastSyscallMap, find_last_syscalls}
use sysbox_runc.Seccomp.Stub.{ret_errno_enosys, generate_enosys_stub}

unfoldable pub is_allow_action : Action → Bool
is_allow_action allow = true
is_allow_action log = true
is_allow_action trace = true
is_allow_action _ = false

-- The order in which a loop visits a map: the same entries.
pub record MapOrder : Type 0 where
  pub visit : LastSyscallMap → LastSyscallMap
  pub visit-IsMap : (m : LastSyscallMap) → IsMap m → IsMap (visit m)
  pub visit-lookup : (m : LastSyscallMap) (k : ℕ) → IsMap m → lookup k (visit m) ≡ lookup k m

abbrev pub is_enosys : Option ℕ → Bool
is_enosys none = false
is_enosys (some n) = n == ret_errno_enosys

module _ (lib : Libseccomp) (first second : MapOrder) where
  -- `none` is the nil patch.
  unfoldable pub generate_patch : Profile → Result PatchError (List Instruction)
  generate_patch config =
      if is_enosys config.default_errno_ret
      then ok []
      else if is_allow_action config.default_action
      then ok []
      else find_last_syscalls lib config
        >>= (λ last. generate_enosys_stub (first.visit last) (second.visit last))

  unfoldable pub enosys_patch_filter :
      Profile → List Instruction → Result PatchError (List Instruction)
  enosys_patch_filter config filter = generate_patch config >>= (λ patch. ok (patch ++ filter))

-- The bits that libseccomp holds of a filter; `none` is an error.
pub record FilterBits : Type 0 where
  pub api_level : ℕ
  pub no_new_privs : Option Bool
  pub log : Option Bool
  pub ssb : Option Bool

pub data FlagError : Type 0 where
  no_new_privs_unknown log_unknown ssb_unknown : FlagError

abbrev flag_log : ℕ
flag_log = 2

abbrev flag_spec_allow : ℕ
flag_spec_allow = 4

abbrev flag_new_listener : ℕ
flag_new_listener = 8

unfoldable pub with_bit : ℕ → FlagError → Option Bool → ℕ → Result FlagError ℕ
with_bit flag e none flags = err e
with_bit flag e (some true) flags = ok (bit_or flags flag)
with_bit flag e (some false) flags = ok flags

unfoldable pub add_listener : List Call → ℕ → ℕ
add_listener [] flags = flags
add_listener (call ∷ calls) flags = elim call.action [
  | notify ↦ bit_or flags flag_new_listener
  | _ ↦ add_listener calls flags
]

unfoldable pub filter_flags : FilterBits → List Call → Result FlagError (ℕ × Bool)
filter_flags bits calls = elim bits.no_new_privs [
  | none ↦ err no_new_privs_unknown
  | some no_new_privs ↦
      (if leb 3 bits.api_level then with_bit flag_log log_unknown bits.log 0 else ok 0)
      >>= (λ flags.
          (if leb 4 bits.api_level
            then with_bit flag_spec_allow ssb_unknown bits.ssb flags
            else ok flags)
          >>= (λ more. ok (add_listener calls more, no_new_privs)))
]
