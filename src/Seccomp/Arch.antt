-- ===== src/Seccomp/Arch.antt =====
-- `archToNative` of libcontainer/seccomp/patchbpf/enosys_linux.go. libseccomp's answers are a
-- parameter; the numbers of the native architectures are those of linux/audit.h.
pub mod Shared
use sysbox_runc.Prelude.{
  ℕ, zero, suc, ◌≡◌, ◌≢◌, ◌↔◌, refl, sym, ap, ◌∙◌, arith, Bool, true, Option, none, some, List, [],
  ◌∷◌, String, Result, ok, err, nat_beq, nat_beq_iff, ◌<◌, ◌^◌, Eq, get_elem?, if◌then◌else◌,
}
use sysbox_runc.Prelude.Int.{ℤ, pos}

-- `libseccomp.ScmpArch`, in the order of its numbers: `ArchInvalid`, `ArchNative`, `ArchX86`, ...
pub data ScmpArch : Type 0 where
  invalid native x86 amd64 x32 arm arm64 mips mips64 mips64n32 mipsel mipsel64 mipsel64n32 ppc ppc64
        ppc64le s390 s390x riscv64 :
      ScmpArch

abbrev pub index : ScmpArch → ℕ
index invalid = 0
index native = 1
index x86 = 2
index amd64 = 3
index x32 = 4
index arm = 5
index arm64 = 6
index mips = 7
index mips64 = 8
index mips64n32 = 9
index mipsel = 10
index mipsel64 = 11
index mipsel64n32 = 12
index ppc = 13
index ppc64 = 14
index ppc64le = 15
index s390 = 16
index s390x = 17
index riscv64 = 18

abbrev indexed : List ScmpArch
indexed =
    invalid ∷ native ∷ x86 ∷ amd64 ∷ x32 ∷ arm ∷ arm64 ∷ mips ∷ mips64 ∷ mips64n32 ∷ mipsel
    ∷ mipsel64 ∷ mipsel64n32 ∷ ppc ∷ ppc64 ∷ ppc64le ∷ s390 ∷ s390x ∷ riscv64 ∷ []

get_elem?-index : (a : ScmpArch) → get_elem? indexed (index a) ≡ some a
get_elem?-index invalid = refl
get_elem?-index native = refl
get_elem?-index x86 = refl
get_elem?-index amd64 = refl
get_elem?-index x32 = refl
get_elem?-index arm = refl
get_elem?-index arm64 = refl
get_elem?-index mips = refl
get_elem?-index mips64 = refl
get_elem?-index mips64n32 = refl
get_elem?-index mipsel = refl
get_elem?-index mipsel64 = refl
get_elem?-index mipsel64n32 = refl
get_elem?-index ppc = refl
get_elem?-index ppc64 = refl
get_elem?-index ppc64le = refl
get_elem?-index s390 = refl
get_elem?-index s390x = refl
get_elem?-index riscv64 = refl

index_inj : (a b : ScmpArch) → index a ≡ index b → a ≡ b
index_inj a b h =
    let same : some a ≡ some b =
      sym (get_elem?-index a) ∙ ap (get_elem? indexed) h ∙ get_elem?-index b in
    cc

abbrev pub arch_beq : ScmpArch → ScmpArch → Bool
arch_beq a b = nat_beq (index a) (index b)

pub arch_beq_iff : (a b : ScmpArch) → (arch_beq a b ≡ true) ↔ (a ≡ b)
arch_beq_iff a b = (
  λ h. index_inj a b ((nat_beq_iff (index a) (index b)).0 h),
  λ e. (nat_beq_iff (index a) (index b)).1 (ap index e),
)

instance abbrev pub arch_eq : Eq ScmpArch
arch_eq = record { beq = arch_beq; beq_iff = arch_beq_iff }

-- The library's answers: GetArchFromString, GetSyscallFromNameByArch and GetNativeArch, of which the
-- last is never the constant for "the native one". `none` is an error. A syscall's number is an int32.
pub record Libseccomp : Type 0 where
  pub arch_from_string : String → Option ScmpArch
  pub syscall_from_name : String → ScmpArch → Option ℤ
  pub the_native : Option ScmpArch
  pub real_native : the_native ≢ some native
  pub is_int32 :
      (name : String) (arch : ScmpArch) (n : ℕ)
      → syscall_from_name name arch ≡ some (pos n)
      → n < 2 ^ 31

pub data PatchError : Type 0 where
  no_native_arch unknown_arch invalid_arch unknown_amd64 arch_overlap missing_x32 missing_amd64
        too_many_overlaps :
      PatchError

abbrev pub audit_arch_x86_64 : ℕ
audit_arch_x86_64 = 0xc000003e

-- The cases other than `native`.
unfoldable pub audit_arch : ScmpArch → Result PatchError ℕ
audit_arch x86 = ok 0x40000003
audit_arch amd64 = ok audit_arch_x86_64
audit_arch x32 = ok audit_arch_x86_64
audit_arch arm = ok 0x40000028
audit_arch arm64 = ok 0xc00000b7
audit_arch mips = ok 0x8
audit_arch mips64 = ok 0x80000008
audit_arch mips64n32 = ok 0xa0000008
audit_arch mipsel = ok 0x40000008
audit_arch mipsel64 = ok 0xc0000008
audit_arch mipsel64n32 = ok 0xe0000008
audit_arch ppc = ok 0x14
audit_arch ppc64 = ok 0x80000015
audit_arch ppc64le = ok 0xc0000015
audit_arch s390 = ok 0x16
audit_arch s390x = ok 0x80000016
audit_arch riscv64 = ok 0xc00000f3
audit_arch invalid = err unknown_arch
audit_arch native = err unknown_arch

unfoldable pub arch_to_native : Libseccomp → ScmpArch → Result PatchError ℕ
arch_to_native lib native = elim lib.the_native [
  | none ↦ err no_native_arch
  | some arch ↦ audit_arch arch
]
arch_to_native lib arch = audit_arch arch
