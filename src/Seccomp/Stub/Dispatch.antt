-- ===== src/Seccomp/Stub/Dispatch.antt =====
-- What the section of a native architecture decides.
use mathlib.Core.List.{append_assoc}
use sysbox_runc.Prelude.{
  ℕ, ◌≡◌, ◌∙◌, refl, sym, ap, ◌<◌, arith, Bool, true, false, Option, none, some, List, [], ◌∷◌,
  ◌++◌, length, length-append, if◌then◌else◌, ok, nat_eq, ltb, value_of, ok_inj, lookup,
}
use sysbox_runc.Prelude.Int.{ℤ}
use sysbox_runc.Seccomp.Bpf.{Instruction, SeccompData, word_at, Machine}
use sysbox_runc.Seccomp.Arch.{ScmpArch, arch_eq, amd64, x32, PatchError, missing_x32, missing_amd64}
use sysbox_runc.Seccomp.LastSyscalls.{MaxSyscalls}
use sysbox_runc.Seccomp.Stub.{
  uint32, load_number, setup_rule, sysno_rule, mode_rule, two_abi_rule, or_missing, both_abis,
  two_abi_section, one_abi_section, section,
}
use sysbox_runc.Seccomp.Stub.Verdict.{is_x32_call, number_or_zero, is_beyond}
use sysbox_runc.Seccomp.Stub.Rules.{rest, outcome, rest-pos}
use sysbox_runc.Seccomp.Stub.Sections.{mode_rule_lem, setup_rule_lem, two_abi_rule_lem}

or_missing-number :
    (e : PatchError) (o : Option ℤ) (n : ℤ) → or_missing e o ≡ ok n → number_or_zero o ≡ n
or_missing-number e o n h = ground arith

-- The last number of the ABI of a call.
number_of_abi :
    (b : Bool) (calls : MaxSyscalls) (n m : ℤ)
    → number_or_zero (lookup x32 calls) ≡ n
    → number_or_zero (lookup amd64 calls) ≡ m
    → (if b then uint32 n else uint32 m)
      ≡ uint32 (number_or_zero (lookup (if b then x32 else amd64) calls))
number_of_abi true calls n m p q = ap uint32 (sym p)
number_of_abi false calls n m p q = ap uint32 (sym q)

module _ (machine : Machine) (d : SeccompData) (front filter : List Instruction) (result : Option ℕ)
    (room : 0 < length filter) (entry : (a : ℕ) → machine.exec d filter a ≡ result) where
  abbrev behind : List Instruction
  behind = rest machine d front filter result room entry

  abbrev decided : Bool → Option ℕ
  decided = outcome machine d front filter result room entry

  one_abi_section_lem :
      (native_arch : ℕ) (arch : ScmpArch) (sysno : ℤ) (s : List Instruction) (a : ℕ)
      → one_abi_section (length front) native_arch arch sysno ≡ ok s
      → machine.exec d (s ++ behind) a ≡ decided (is_beyond native_arch ((arch, sysno) ∷ []) d.nr)
  unfolding one_abi_section is_beyond word_at
  one_abi_section_lem native_arch arch sysno s a built =
      let (tail, (checked, joined)) =
        value_of (mode_rule native_arch arch (sysno_rule (length front) sysno)) _ s built in
      let shape : load_number ∷ (setup_rule arch ++ tail) ≡ s = ok_inj joined in
      let run =
        mode_rule_lem machine d front filter result room entry native_arch arch sysno tail d.nr
          checked in
      rw (← shape) (
        machine.on_load d 0 ((setup_rule arch ++ tail) ++ behind) a
        ∙ ap (λ k. machine.exec d k d.nr) (append_assoc (setup_rule arch) tail behind)
        ∙ setup_rule_lem machine d front filter result room entry arch (tail ++ behind) d.nr (
            omega
              (arith, length-append tail behind, rest-pos machine d front filter result room entry))
        ∙ rw run (ground arith))

  two_abi_section_lem :
      (native_arch : ℕ) (x y : ScmpArch × ℤ) (s : List Instruction) (a : ℕ)
      → two_abi_section (length front) native_arch (x ∷ y ∷ []) ≡ ok s
      → machine.exec d (s ++ behind) a ≡ decided (is_beyond native_arch (x ∷ y ∷ []) d.nr)
  unfolding two_abi_section both_abis is_beyond word_at
  two_abi_section_lem native_arch x y s a built =
      let calls = x ∷ y ∷ [] in
      let both : both_abis (length front) calls ≡ ok s = ground arith in
      let (x32_sysno, (x32_found, later)) =
        value_of (or_missing missing_x32 (lookup x32 calls)) _ s both in
      let (x86_sysno, (x86_found, joined)) =
        value_of (or_missing missing_amd64 (lookup amd64 calls)) _ s later in
      let shape : load_number ∷ two_abi_rule (length front) x86_sysno x32_sysno ≡ s =
        ok_inj joined in
      rw (← shape) (
        machine.on_load d 0 (two_abi_rule (length front) x86_sysno x32_sysno ++ behind) a
        ∙ two_abi_rule_lem machine d front filter result room entry x86_sysno x32_sysno d.nr
        ∙ ap (λ v. decided (ltb v d.nr))
            (number_of_abi (is_x32_call d.nr) calls x32_sysno x86_sysno
              (or_missing-number missing_x32 (lookup x32 calls) x32_sysno x32_found)
              (or_missing-number missing_amd64 (lookup amd64 calls) x86_sysno x86_found)))

  -- A section decides its calls; an architecture without one has none beyond.
  pub section_lem :
      (native_arch : ℕ) (calls : MaxSyscalls) (s : List Instruction) (a : ℕ)
      → section (length front) native_arch calls ≡ ok (some s)
      → machine.exec d (s ++ behind) a ≡ decided (is_beyond native_arch calls d.nr)
  unfolding section
  section_lem native_arch [] s a built = ground arith
  section_lem native_arch ((arch, sysno) ∷ []) s a built =
      let (s', (one, same)) =
        value_of (one_abi_section (length front) native_arch arch sysno) _ (some s) built in
      let e : s' ≡ s = ground arith in
      rw (← e) (one_abi_section_lem native_arch arch sysno s' a one)
  section_lem native_arch (x ∷ y ∷ []) s a built =
      let (s', (two, same)) =
        value_of (two_abi_section (length front) native_arch (x ∷ y ∷ [])) _ (some s) built in
      let e : s' ≡ s = ground arith in rw (← e) (two_abi_section_lem native_arch x y s' a two)
  section_lem native_arch (x ∷ y ∷ z ∷ more) s a built = ground arith

pub section-none :
    (n native_arch : ℕ) (calls : MaxSyscalls) → section n native_arch calls ≡ ok none → calls ≡ []
unfolding section
section-none n native_arch [] built = refl
section-none n native_arch ((arch, sysno) ∷ []) built =
    let (s', (one, same)) = value_of (one_abi_section n native_arch arch sysno) _ none built in
    ground arith
section-none n native_arch (x ∷ y ∷ []) built =
    let (s', (two, same)) = value_of (two_abi_section n native_arch (x ∷ y ∷ [])) _ none built in
    ground arith
section-none n native_arch (x ∷ y ∷ z ∷ more) built = ground arith
