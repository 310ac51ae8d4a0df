-- ===== src/Seccomp/Arch/Shared.antt =====
-- Which architectures share a native one.
use sysbox_runc.Prelude.{
  ℕ, ◌≡◌, ◌∙◌, refl, sym, ap, arith, Option, some, List, [], ◌∷◌, ok, ok_inj, lookup, nat_eq, ◌==◌,
  if◌then◌else◌, ◌⊎◌, inl, inr, Bool-cases,
}
use sysbox_runc.Seccomp.Arch.{
  ScmpArch, invalid, native, x86, amd64, x32, arm, arm64, mips, mips64, mips64n32, mipsel, mipsel64,
  mipsel64n32, ppc, ppc64, ppc64le, s390, s390x, riscv64, arch_eq, audit_arch, audit_arch_x86_64,
}

abbrev natives : List (ℕ × ScmpArch)
natives =
    (0x40000003, x86)
    ∷ (audit_arch_x86_64, amd64)
    ∷ (0x40000028, arm)
    ∷ (0xc00000b7, arm64)
    ∷ (0x8, mips)
    ∷ (0x80000008, mips64)
    ∷ (0xa0000008, mips64n32)
    ∷ (0x40000008, mipsel)
    ∷ (0xc0000008, mipsel64)
    ∷ (0xe0000008, mipsel64n32)
    ∷ (0x14, ppc)
    ∷ (0x80000015, ppc64)
    ∷ (0xc0000015, ppc64le)
    ∷ (0x16, s390)
    ∷ (0x80000016, s390x)
    ∷ (0xc00000f3, riscv64)
    ∷ []

of_native : ℕ → Option ScmpArch
unfolding lookup
of_native n = lookup n natives

-- The architecture that stands for all with its native one.
abbrev pub main_arch : ScmpArch → ScmpArch
main_arch arch = if arch == x32 then amd64 else arch

main_arch_of : (a : ScmpArch) (n : ℕ) → audit_arch a ≡ ok n → some (main_arch a) ≡ of_native n
unfolding audit_arch of_native
main_arch_of x86 n h = ap of_native (ok_inj h)
main_arch_of amd64 n h = ap of_native (ok_inj h)
main_arch_of x32 n h = ap of_native (ok_inj h)
main_arch_of arm n h = ap of_native (ok_inj h)
main_arch_of arm64 n h = ap of_native (ok_inj h)
main_arch_of mips n h = ap of_native (ok_inj h)
main_arch_of mips64 n h = ap of_native (ok_inj h)
main_arch_of mips64n32 n h = ap of_native (ok_inj h)
main_arch_of mipsel n h = ap of_native (ok_inj h)
main_arch_of mipsel64 n h = ap of_native (ok_inj h)
main_arch_of mipsel64n32 n h = ap of_native (ok_inj h)
main_arch_of ppc n h = ap of_native (ok_inj h)
main_arch_of ppc64 n h = ap of_native (ok_inj h)
main_arch_of ppc64le n h = ap of_native (ok_inj h)
main_arch_of s390 n h = ap of_native (ok_inj h)
main_arch_of s390x n h = ap of_native (ok_inj h)
main_arch_of riscv64 n h = ap of_native (ok_inj h)
main_arch_of invalid n h = ground arith
main_arch_of native n h = ground arith

pub main_arch-eq :
    (a b : ScmpArch) (n : ℕ) → audit_arch a ≡ ok n → audit_arch b ≡ ok n → main_arch a ≡ main_arch b
main_arch-eq a b n h k = let same = main_arch_of a n h ∙ sym (main_arch_of b n k) in ground arith

-- The architectures of x86_64, by their numbers.
pub amd64_or_x32 : (a : ScmpArch) → audit_arch a ≡ ok audit_arch_x86_64 → (a ≡ amd64) ⊎ (a ≡ x32)
unfolding audit_arch
amd64_or_x32 a h =
    let same : main_arch a ≡ amd64 = main_arch-eq a amd64 audit_arch_x86_64 h refl in
    elim (Bool-cases (a == x32)) [
      | inl is_x32 ↦ inr ((arch_eq.beq_iff a x32).0 is_x32)
      | inr other ↦ inl (rw other at same)
    ]
