-- ===== src/Seccomp/Stub/Verdict.antt =====
-- Which calls the stub of `generateEnosysStub` is to answer with ENOSYS.
use Prim.Native.Nat.{bit_and}
use sysbox_runc.Prelude.{
  ℕ, Bool, true, false, not, ◌&&◌, ◌||◌, Option, none, some, [], ◌∷◌, if◌then◌else◌, ◌==◌, nat_eq,
  ltb, lookup,
}
use sysbox_runc.Prelude.Int.{ℤ, pos}
use sysbox_runc.Seccomp.Bpf.{SeccompData}
use sysbox_runc.Seccomp.Arch.{ScmpArch, amd64, x32, s390, s390x, arch_eq, audit_arch_x86_64}
use sysbox_runc.Seccomp.LastSyscalls.{MaxSyscalls, LastSyscallMap}
use sysbox_runc.Seccomp.Stub.{uint32, x32_bit}

-- Whether a number is that of a process of the x32 ABI.
abbrev pub is_x32_call : ℕ → Bool
is_x32_call nr = not (bit_and nr x32_bit == 0)

abbrev pub is_s390 : ScmpArch → Bool
is_s390 s390 = true
is_s390 s390x = true
is_s390 _ = false

-- Whether a call of a native architecture is one of the ABI.
abbrev pub in_mode : ℕ → ScmpArch → ℕ → Bool
in_mode native_arch arch nr =
    if native_arch == audit_arch_x86_64
    then if arch == x32 then is_x32_call nr else not (is_x32_call nr)
    else true

abbrev pub number_or_zero : Option ℤ → ℤ
number_or_zero none = pos 0
number_or_zero (some n) = n

-- A number above the last one of its ABI, or setup(2) on s390.
unfoldable pub is_beyond : ℕ → MaxSyscalls → ℕ → Bool
is_beyond native_arch [] nr = false
is_beyond native_arch ((arch, sysno) ∷ []) nr =
    (is_s390 arch && nr == 0) || (in_mode native_arch arch nr && ltb (uint32 sysno) nr)
is_beyond native_arch (a ∷ b ∷ calls) nr =
    let abi = if is_x32_call nr then x32 else amd64 in
    ltb (uint32 (number_or_zero (lookup abi (a ∷ b ∷ calls)))) nr

unfoldable pub gets_enosys : LastSyscallMap → SeccompData → Bool
gets_enosys last d = elim (lookup d.arch last) [
  | none ↦ false
  | some calls ↦ is_beyond d.arch calls d.nr
]
