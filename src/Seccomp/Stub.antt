-- ===== src/Seccomp/Stub.antt =====
-- `generateEnosysStub` of libcontainer/seccomp/patchbpf/enosys_linux.go. The two loops run over a map
-- in an order that Go does not promise: each takes the entries in an order of its own. The length of
-- a program is below 2^32, so that its `uint32` is itself.
pub mod Verdict
pub mod Jumps
pub mod Rules
pub mod Sections
pub mod Dispatch
pub mod Landing
pub mod Decision
pub mod Total
use sysbox_runc.Prelude.{
  ℕ, ◌≡◌, ◌+◌, ◌-◌, ◌^◌, ◌%◌, suc, Bool, true, false, Option, none, some, List, [], ◌∷◌, ◌++◌,
  Result, ok, err, ◌>>=◌, if◌then◌else◌, ◌==◌, nat_eq, leb, length, lookup, put,
}
use sysbox_runc.Prelude.Int.{ℤ, pos, negsuc}
use sysbox_runc.Seccomp.Bpf.{
  Instruction, load_absolute, jump, jump_if, ret_constant, equal, not_equal, greater_than,
  less_or_equal, bits_set, bits_not_set, uint8,
}
use sysbox_runc.Seccomp.Arch.{
  ScmpArch, amd64, x32, s390, s390x, arch_eq, PatchError, unknown_amd64, arch_overlap, missing_x32,
  missing_amd64, too_many_overlaps, audit_arch_x86_64,
}
use sysbox_runc.Seccomp.LastSyscalls.{MaxSyscalls, LastSyscallMap}

-- `SCMP_ACT_ERRNO(ENOSYS)`
abbrev pub ret_errno_enosys : ℕ
ret_errno_enosys = 0x50026

-- `uint32(sysno)` of an int32.
abbrev pub uint32 : ℤ → ℕ
uint32 (pos n) = n % 2 ^ 32
uint32 (negsuc n) = 2 ^ 32 - 1 - n % 2 ^ 32

abbrev pub x32_bit : ℕ
x32_bit = 2 ^ 30

abbrev pub s390x_multiplex_syscall : ℕ
s390x_multiplex_syscall = 0

-- What a section has on s390(x) after its load.
unfoldable pub setup_rule : ScmpArch → List Instruction
setup_rule s390 = jump_if not_equal s390x_multiplex_syscall 1 0 ∷ ret_constant ret_errno_enosys ∷ []
setup_rule s390x =
    jump_if not_equal s390x_multiplex_syscall 1 0 ∷ ret_constant ret_errno_enosys ∷ []
setup_rule _ = []

-- `sectionTail`: a short jump or a long one, where `enosys` is `baseJumpEnosys`.
unfoldable pub sysno_rule : ℕ → ℤ → List Instruction
sysno_rule enosys sysno =
    if leb (enosys + 1) 255
    then jump_if greater_than (uint32 sysno) (uint8 (enosys + 1)) 0 ∷ jump (enosys + 1) ∷ []
    else jump_if less_or_equal (uint32 sysno) 1 0
      ∷ ret_constant ret_errno_enosys
      ∷ jump (enosys + 1)
      ∷ []

-- On x86_64, the check of the mode before the tail of the section.
unfoldable pub mode_rule : ℕ → ScmpArch → List Instruction → Result PatchError (List Instruction)
mode_rule native_arch arch tail =
    if native_arch == audit_arch_x86_64
    then if arch == amd64
      then ok (jump_if bits_set x32_bit (uint8 (length tail - 1)) 0 ∷ tail)
      else if arch == x32
      then ok (jump_if bits_not_set x32_bit (uint8 (length tail - 1)) 0 ∷ tail)
      else err unknown_amd64
    else ok tail

-- The section of two ABIs.
unfoldable pub two_abi_rule : ℕ → ℤ → ℤ → List Instruction
two_abi_rule enosys x86_sysno x32_sysno =
    if leb (enosys + 2) 255
    then jump_if bits_set x32_bit 1 0
      ∷ jump_if greater_than (uint32 x86_sysno) (uint8 (enosys + 2)) 1
      ∷ jump_if greater_than (uint32 x32_sysno) (uint8 (enosys + 1)) 0
      ∷ jump (enosys + 1)
      ∷ []
    else jump_if bits_set x32_bit 1 0
      ∷ jump_if greater_than (uint32 x86_sysno) 1 2
      ∷ jump_if less_or_equal (uint32 x32_sysno) 1 0
      ∷ ret_constant ret_errno_enosys
      ∷ jump (enosys + 1)
      ∷ []

abbrev pub or_missing : {A : Type 0} → PatchError → Option A → Result PatchError A
or_missing e none = err e
or_missing e (some a) = ok a

abbrev pub load_number : Instruction
load_number = load_absolute 0

unfoldable pub both_abis : ℕ → MaxSyscalls → Result PatchError (List Instruction)
both_abis enosys calls = do
  x32_sysno ← or_missing missing_x32 (lookup x32 calls)
  x86_sysno ← or_missing missing_amd64 (lookup amd64 calls)
  ok (load_number ∷ two_abi_rule enosys x86_sysno x32_sysno)

unfoldable pub two_abi_section : ℕ → ℕ → MaxSyscalls → Result PatchError (List Instruction)
two_abi_section enosys native_arch calls =
    if native_arch == audit_arch_x86_64 then both_abis enosys calls else err arch_overlap

unfoldable pub one_abi_section : ℕ → ℕ → ScmpArch → ℤ → Result PatchError (List Instruction)
one_abi_section enosys native_arch arch sysno = do
  tail ← mode_rule native_arch arch (sysno_rule enosys sysno)
  ok (load_number ∷ (setup_rule arch ++ tail))

-- The section of a native architecture; one with no syscall has none.
unfoldable pub section : ℕ → ℕ → MaxSyscalls → Result PatchError (Option (List Instruction))
section enosys native_arch [] = ok none
section enosys native_arch ((arch, sysno) ∷ []) =
    one_abi_section enosys native_arch arch sysno >>= (λ s. ok (some s))
section enosys native_arch (a ∷ b ∷ []) =
    two_abi_section enosys native_arch (a ∷ b ∷ []) >>= (λ s. ok (some s))
section enosys native_arch (a ∷ b ∷ c ∷ more) = err too_many_overlaps

abbrev pub JumpTable : Type 0
JumpTable = List (ℕ × ℕ)

-- The program that grows at its front, and how far from its end each section begins.
pub record Tail : Type 0 where
  pub program : List Instruction
  pub table : JumpTable

unfoldable pub prepend_section : ℕ → Option (List Instruction) → Tail → Tail
prepend_section native_arch none t = t
prepend_section native_arch (some s) t = record {
  program = s ++ t.program;
  table = put native_arch (length (s ++ t.program)) t.table;
}

-- The first loop.
unfoldable pub add_sections : LastSyscallMap → Tail → Result PatchError Tail
add_sections [] t = ok t
add_sections ((native_arch, calls) ∷ last) t =
    section (length t.program - 1) native_arch calls
    >>= (λ s. add_sections last (prepend_section native_arch s t))

-- The index of a map that lacks the key is zero.
abbrev pub or_zero : Option ℕ → ℕ
or_zero none = 0
or_zero (some n) = n

-- A round of the second loop: a short jump or a long one to the section.
unfoldable pub arch_rule : ℕ → ℕ → List Instruction
arch_rule native_arch distance =
    if leb distance 255
    then jump_if equal native_arch (uint8 distance) 0 ∷ []
    else jump_if not_equal native_arch 1 0 ∷ jump distance ∷ []

unfoldable pub add_arch_rules : JumpTable → LastSyscallMap → List Instruction → List Instruction
add_arch_rules table [] program = program
add_arch_rules table ((native_arch, _) ∷ last) program =
    add_arch_rules table last
      (arch_rule native_arch (length program - or_zero (lookup native_arch table)) ++ program)

abbrev pub first_tail : List Instruction
first_tail = jump 1 ∷ ret_constant ret_errno_enosys ∷ []

-- The two orders are those in which the loops see the entries.
unfoldable pub generate_enosys_stub :
    LastSyscallMap → LastSyscallMap → Result PatchError (List Instruction)
generate_enosys_stub last again = do
  t ← add_sections last (record { program = first_tail; table = [] })
  ok (load_absolute 4 ∷ add_arch_rules t.table again (jump (length t.program) ∷ t.program))
