-- ===== src/Seccomp/Stub/Total.antt =====
-- The stub is built for every map of `findLastSyscalls`.
use sysbox_runc.Prelude.{
  ℕ, ◌≡◌, ◌∙◌, refl, sym, ap, subst, ◌-◌, arith, false, Option, none, some, List, [], ◌∷◌, ◌++◌, ok,
  ok_inj, inl, inr, ◌⊎◌, nat_eq, ◌==◌, lookup, Entries, length, eq_cases,
}
use sysbox_runc.Prelude.Int.{ℤ}
use sysbox_runc.Seccomp.Bpf.{Instruction, load_absolute, jump}
use sysbox_runc.Seccomp.Arch.{ScmpArch, amd64, x32, arch_eq, audit_arch, audit_arch_x86_64}
use sysbox_runc.Seccomp.Arch.Shared.{main_arch-eq, amd64_or_x32}
use sysbox_runc.Seccomp.LastSyscalls.{MaxSyscalls, LastSyscallMap}
use sysbox_runc.Seccomp.LastSyscalls.Shape.{IsEntry}
use sysbox_runc.Seccomp.Stub.{
  mode_rule, sysno_rule, one_abi_section, two_abi_section, both_abis, section, add_sections, Tail,
  prepend_section, generate_enosys_stub, load_number, setup_rule, first_tail, add_arch_rules,
}

abbrev HasMode : ℕ → List Instruction → ScmpArch → Type 0
HasMode n tail arch = (t : List Instruction) × (mode_rule n arch tail ≡ ok t)

mode_rule_total :
    (n : ℕ) (arch : ScmpArch) (tail : List Instruction)
    → audit_arch arch ≡ ok n
    → HasMode n tail arch
unfolding mode_rule
mode_rule_total n arch tail h = elim (eq_cases n audit_arch_x86_64) [
  | inr plain ↦ (tail, rw plain)
  | inl same ↦
      subst (λ m. HasMode m tail arch) (sym same)
        (elim (amd64_or_x32 arch (h ∙ ap ok same)) [
          | inl is_amd64 ↦ subst (HasMode audit_arch_x86_64 tail) (sym is_amd64) (_, refl)
          | inr is_x32 ↦ subst (HasMode audit_arch_x86_64 tail) (sym is_x32) (_, refl)
        ])
]

-- Two architectures that share a native one.
pub pair_abis :
    (n : ℕ) (a b : ScmpArch)
    → (b == a) ≡ false
    → audit_arch a ≡ ok n
    → audit_arch b ≡ ok n
    → ((a ≡ amd64) × (b ≡ x32)) ⊎ ((a ≡ x32) × (b ≡ amd64))
pair_abis n a b distinct h k =
    let same = main_arch-eq a b n h k in
    ground (arith, arch_eq.beq_iff a x32, arch_eq.beq_iff b x32, arch_eq.beq_iff b a)

no_third :
    (n : ℕ) (a b c : ScmpArch)
    → (b == a) ≡ false
    → (c == a) ≡ false
    → (c == b) ≡ false
    → audit_arch a ≡ ok n
    → audit_arch b ≡ ok n
    → audit_arch c ≡ ok n
    → ⊥
no_third n a b c ba ca cb h k l =
    let first = pair_abis n a b ba h k in
    let second = pair_abis n a c ca h l in ground (arith, arch_eq.beq_iff c b)

abbrev HasSection : ℕ → ℕ → MaxSyscalls → Type 0
HasSection enosys n calls = (s : Option (List Instruction)) × (section enosys n calls ≡ ok s)

two_abis_total :
    (enosys : ℕ) (v w : ℤ) (n : ℕ) (a b : ScmpArch)
    → n ≡ audit_arch_x86_64
    → ((a ≡ amd64) × (b ≡ x32)) ⊎ ((a ≡ x32) × (b ≡ amd64))
    → HasSection enosys n ((a, v) ∷ (b, w) ∷ [])
unfolding section two_abi_section both_abis lookup
two_abis_total enosys v w n a b same (inl (a_is, b_is)) =
    subst (λ m. HasSection enosys m ((a, v) ∷ (b, w) ∷ [])) (sym same)
      (subst (λ x. HasSection enosys audit_arch_x86_64 ((x, v) ∷ (b, w) ∷ [])) (sym a_is)
        (subst (λ y. HasSection enosys audit_arch_x86_64 ((amd64, v) ∷ (y, w) ∷ [])) (sym b_is)
          (_, refl)))
two_abis_total enosys v w n a b same (inr (a_is, b_is)) =
    subst (λ m. HasSection enosys m ((a, v) ∷ (b, w) ∷ [])) (sym same)
      (subst (λ x. HasSection enosys audit_arch_x86_64 ((x, v) ∷ (b, w) ∷ [])) (sym a_is)
        (subst (λ y. HasSection enosys audit_arch_x86_64 ((x32, v) ∷ (y, w) ∷ [])) (sym b_is)
          (_, refl)))

pub native_of_pair :
    (n : ℕ) (a b : ScmpArch)
    → audit_arch a ≡ ok n
    → audit_arch b ≡ ok n
    → ((a ≡ amd64) × (b ≡ x32)) ⊎ ((a ≡ x32) × (b ≡ amd64))
    → n ≡ audit_arch_x86_64
unfolding audit_arch
native_of_pair n a b h k (inl (a_is, b_is)) = sym (ok_inj (sym (ap audit_arch a_is) ∙ h))
native_of_pair n a b h k (inr (a_is, b_is)) = sym (ok_inj (sym (ap audit_arch b_is) ∙ k))

section_total : (enosys n : ℕ) (calls : MaxSyscalls) → IsEntry n calls → HasSection enosys n calls
unfolding section lookup one_abi_section
section_total enosys n [] entry = (none, refl)
section_total enosys n ((arch, sysno) ∷ []) entry =
    let (t, built) = mode_rule_total n arch (sysno_rule enosys sysno) entry.natives.0 in
    (some (load_number ∷ (setup_rule arch ++ t)), rw built)
section_total enosys n ((a, v) ∷ (b, w) ∷ []) entry =
    let distinct : (b == a) ≡ false = ground (arith, entry.distinct.0) in
    let abis = pair_abis n a b distinct entry.natives.0 entry.natives.1.0 in
    two_abis_total enosys v w n a b (native_of_pair n a b entry.natives.0 entry.natives.1.0 abis)
      abis
section_total enosys n ((a, v) ∷ (b, w) ∷ (c, u) ∷ more) entry = absurd (
    no_third n a b c (ground (arith, entry.distinct.0)) (ground (arith, entry.distinct.0))
      (ground (arith, entry.distinct.1.0)) entry.natives.0 entry.natives.1.0 entry.natives.1.1.0)

add_sections_total :
    (last : LastSyscallMap) (t : Tail)
    → Entries IsEntry last
    → (t' : Tail) × (add_sections last t ≡ ok t')
unfolding add_sections
add_sections_total [] t all_last = (t, refl)
add_sections_total ((n, calls) ∷ last) t (entry, later) =
    let (s, built) = section_total (length t.program - 1) n calls entry in
    let (t', rest) = add_sections_total last (prepend_section n s t) later in (t', rw built rest)

-- A stub is built, whatever the orders of the two loops, for every map whose entries hold
-- architectures of their native ones, each once.
pub generate_enosys_stub_total :
    (last again : LastSyscallMap)
    → Entries IsEntry last
    → (stub : List Instruction) × (generate_enosys_stub last again ≡ ok stub)
unfolding generate_enosys_stub
generate_enosys_stub_total last again all_last =
    let (t, built) =
      add_sections_total last (record { program = first_tail; table = [] }) all_last in
    (load_absolute 4 ∷ add_arch_rules t.table again (jump (length t.program) ∷ t.program), rw built)
