-- ===== src/Seccomp/LastSyscalls.antt =====
-- `findLastSyscalls` of libcontainer/seccomp/patchbpf/enosys_linux.go.
pub mod Recorded
pub mod Shape
pub mod Largest
use sysbox_runc.Prelude.{
  ℕ, ◌≡◌, Bool, true, false, Option, none, some, List, [], ◌∷◌, String, Result, ok, err, ◌>>=◌,
  if◌then◌else◌, nat_eq, lookup, put, delete,
}
use sysbox_runc.Prelude.Int.{ℤ, pos, negsuc, ltb_ℤ, beq_ℤ}
use sysbox_runc.Specconv.Seccomp.{Call, Profile}
use sysbox_runc.Seccomp.Arch.{
  ScmpArch, arch_eq, Libseccomp, PatchError, invalid_arch, arch_to_native,
}

-- The largest number of a syscall, by architecture.
abbrev pub MaxSyscalls : Type 0
MaxSyscalls = List (ScmpArch × ℤ)

-- `lastSyscallMap`: by native architecture.
abbrev pub LastSyscallMap : Type 0
LastSyscallMap = List (ℕ × MaxSyscalls)

abbrev pub or_empty : Option MaxSyscalls → MaxSyscalls
or_empty none = []
or_empty (some m) = m

module _ (lib : Libseccomp) where
  -- The loop over the rules, with the largest number so far.
  unfoldable pub largest_syscall : ScmpArch → ℤ → List Call → ℤ
  largest_syscall arch largest [] = largest
  largest_syscall arch largest (rule ∷ rules) = elim (lib.syscall_from_name rule.name arch) [
    | none ↦ largest_syscall arch largest rules
    | some sysno ↦ largest_syscall arch (if ltb_ℤ largest sysno then sysno else largest) rules
  ]

  -- The end of a round: the number is recorded, or the architecture is taken away.
  unfoldable pub record_largest :
      List Call → ScmpArch → ℕ → MaxSyscalls → LastSyscallMap → LastSyscallMap
  record_largest rules arch native_arch seen last =
      let largest = largest_syscall arch (pos 0) rules in
      if beq_ℤ largest (pos 0)
      then put native_arch (delete arch seen) last
      else put native_arch (put arch largest seen) last

  -- A round, once the architecture and its native one are known.
  unfoldable pub find_arch : List Call → ScmpArch → ℕ → LastSyscallMap → LastSyscallMap
  find_arch rules arch native_arch last =
      let seen = or_empty (lookup native_arch last) in
      elim (lookup arch seen) [
        | some _ ↦ last
        | none ↦ record_largest rules arch native_arch seen last
      ]

  unfoldable pub find_archs :
      List Call → List String → LastSyscallMap → Result PatchError LastSyscallMap
  find_archs rules [] last = ok last
  find_archs rules (oci_arch ∷ archs) last = elim (lib.arch_from_string oci_arch) [
    | none ↦ err invalid_arch
    | some arch ↦
        arch_to_native lib arch
        >>= (λ native_arch. find_archs rules archs (find_arch rules arch native_arch last))
  ]

  unfoldable pub find_last_syscalls : Profile → Result PatchError LastSyscallMap
  find_last_syscalls config = find_archs config.syscalls config.architectures []
