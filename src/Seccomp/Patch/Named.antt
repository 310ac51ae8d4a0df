-- ===== src/Seccomp/Patch/Named.antt =====
-- The syscalls that a profile names are left to its rules.
use sysbox_runc.Prelude.{
  ℕ, ◌≡◌, ◌∙◌, refl, sym, ap, subst, ◌≤◌, ◌<◌, ◌^◌, arith, Bool, true, false, some, List, [], ◌∷◌,
  String, ok, if◌then◌else◌, Bool-cases, Option-cases, inl, inr, ◌⊎◌, ◌==◌, nat_eq, string_eq, ltb,
  any, All, lookup, Entries-lookup, eq_cases,
}
use sysbox_runc.Prelude.Int.{pos, negsuc}
use sysbox_runc.Specconv.Seccomp.{Call, Profile}
use sysbox_runc.Seccomp.Bpf.{Instruction, load_absolute, SeccompData, Machine}
use sysbox_runc.Seccomp.Arch.{
  ScmpArch, amd64, x32, arch_eq, Libseccomp, audit_arch, audit_arch_x86_64,
}
use sysbox_runc.Seccomp.Arch.Shared.{amd64_or_x32}
use sysbox_runc.Seccomp.LastSyscalls.{
  MaxSyscalls, LastSyscallMap, or_empty, largest_syscall, find_last_syscalls,
}
use sysbox_runc.Seccomp.LastSyscalls.Recorded.{read, last_of, names, find_last_syscalls-read}
use sysbox_runc.Seccomp.LastSyscalls.Shape.{
  HasNative, IsEntry, IsNamed, find_last_syscalls-IsShaped,
}
use sysbox_runc.Seccomp.Stub.{uint32}
use sysbox_runc.Seccomp.Stub.Total.{pair_abis, native_of_pair}
use sysbox_runc.Seccomp.Stub.Verdict.{is_x32_call, in_mode, number_or_zero, is_beyond, gets_enosys}
use sysbox_runc.Seccomp.Patch.{MapOrder, enosys_patch_filter}
use sysbox_runc.Seccomp.Patch.Filtered.{enosys_patch_filter_run}

-- Whether a rule has the name.
abbrev pub has_rule : String → List Call → Bool
has_rule name rules = any (λ r. r.name == name) rules

uint32_small : (q : ℕ) → q < 2 ^ 31 → uint32 (pos q) ≡ q
uint32_small q small = omega arith

mode_abi :
    (arch : ScmpArch) (nr : ℕ)
    → (arch ≡ amd64) ⊎ (arch ≡ x32)
    → in_mode audit_arch_x86_64 arch nr ≡ true
    → (if is_x32_call nr then x32 else amd64) ≡ arch
mode_abi arch nr abis mode = ground (arith, arch_eq.beq_iff arch x32)

not_beyond :
    (n nr q : ℕ) (arch : ScmpArch) (calls : MaxSyscalls)
    → IsEntry n calls
    → lookup arch calls ≡ some (pos q)
    → nr ≤ q
    → q < 2 ^ 31
    → 0 < nr
    → in_mode n arch nr ≡ true
    → is_beyond n calls nr ≡ false
unfolding is_beyond lookup
not_beyond n nr q arch [] entry found below small positive mode = ground arith
not_beyond n nr q arch ((a, v) ∷ []) entry found below small positive mode =
    let same : v ≡ pos q = ground arith in rw (same, uint32_small q small) (ground arith)
not_beyond n nr q arch ((a, v) ∷ (b, w) ∷ calls) entry found below small positive mode =
    let is_native : audit_arch arch ≡ ok n =
      Entries-lookup (HasNative n) arch (pos q) ((a, v) ∷ (b, w) ∷ calls) entry.natives found in
    let distinct : (b == a) ≡ false = ground (arith, entry.distinct.0) in
    let same =
      native_of_pair n a b entry.natives.0 entry.natives.1.0
        (pair_abis n a b distinct entry.natives.0 entry.natives.1.0) in
    let abi =
      mode_abi arch nr (amd64_or_x32 arch (is_native ∙ ap ok same))
        (subst (λ k. in_mode k arch nr ≡ true) same mode) in
    ap (λ x. ltb (uint32 (number_or_zero (lookup x ((a, v) ∷ (b, w) ∷ calls)))) nr) abi
    ∙ ap (λ o. ltb (uint32 (number_or_zero o)) nr) found
    ∙ ap (λ u. ltb u nr) (uint32_small q small)
    ∙ ground arith

module _ (lib : Libseccomp) where
  -- The largest number is an int32, not below the one to start from, and not below that of a rule.
  record IsLargest (arch : ScmpArch) (m : ℕ) (rules : List Call) (q : ℕ) : Type 0 where
    found : largest_syscall lib arch (pos m) rules ≡ pos q
    above : m ≤ q
    within : q < 2 ^ 31
    of_rule :
        (name : String) (k : ℕ)
        → has_rule name rules ≡ true
        → lib.syscall_from_name name arch ≡ some (pos k)
        → k ≤ q

  -- A round, with the largest number after it.
  IsLargest-cons :
      (arch : ScmpArch) (m m' : ℕ) (rule : Call) (rules : List Call)
      → largest_syscall lib arch (pos m) (rule ∷ rules) ≡ largest_syscall lib arch (pos m') rules
      → m ≤ m'
      → ((k : ℕ) → lib.syscall_from_name rule.name arch ≡ some (pos k) → k ≤ m')
      → (q : ℕ) × IsLargest arch m' rules q
      → (q : ℕ) × IsLargest arch m (rule ∷ rules) q
  IsLargest-cons arch m m' rule rules step up bound (q, later) = (
    q,
    record {
      found = step ∙ later.found;
      above = omega (arith, later.above);
      within = later.within;
      of_rule = λ name k named number. elim (eq_cases rule.name name) [
        | inl same ↦
            let number' =
              subst (λ x. lib.syscall_from_name x arch ≡ some (pos k)) (sym same) number in
            omega (arith, later.above, bound k number')
        | inr other ↦ later.of_rule name k (ground arith) number
      ];
    },
  )

  largest_syscall_lem :
      (arch : ScmpArch) (m : ℕ) (rules : List Call)
      → m < 2 ^ 31
      → (q : ℕ) × IsLargest arch m rules q
  unfolding largest_syscall
  largest_syscall_lem arch m [] small = (
    m,
    record {
      found = refl;
      above = omega arith;
      within = small;
      of_rule = λ name k h e. ground arith;
    },
  )
  largest_syscall_lem arch m (rule ∷ rules) small =
      elim (Option-cases (lib.syscall_from_name rule.name arch)) [
        | inl unknown ↦
            IsLargest-cons arch m m rule rules (rw (largest_syscall, unknown)) (omega arith)
              (λ k number. ground arith) (largest_syscall_lem arch m rules small)
        | inr (negsuc n, known) ↦
            IsLargest-cons arch m m rule rules (rw (largest_syscall, known)) (omega arith)
              (λ k number. ground arith) (largest_syscall_lem arch m rules small)
        | inr (pos n, known) ↦ elim (Bool-cases (ltb m n)) [
          | inl larger ↦
              IsLargest-cons arch m n rule rules (rw (largest_syscall, known, larger))
                (ground arith) (λ k number. ground arith)
                (largest_syscall_lem arch n rules (lib.is_int32 rule.name arch n known))
          | inr not_larger ↦
              IsLargest-cons arch m m rule rules (rw (largest_syscall, known, not_larger))
                (omega arith) (λ k number. ground arith) (largest_syscall_lem arch m rules small)
        ]
      ]

  -- What is recorded for an architecture of a named syscall with a number above zero.
  last_of_named :
      (rules : List Call) (arch : ScmpArch) (name : String) (k : ℕ)
      → has_rule name rules ≡ true
      → lib.syscall_from_name name arch ≡ some (pos k)
      → 0 < k
      → (q : ℕ) × ((last_of lib rules arch ≡ some (pos q)) × ((k ≤ q) × (q < 2 ^ 31)))
  unfolding last_of
  last_of_named rules arch name k named number positive =
      let (q, largest) = largest_syscall_lem arch 0 rules (omega arith) in
      let reached = largest.of_rule name k named number in
      (q, (rw largest.found (ground arith), (reached, largest.within)))

  -- A named syscall is not beyond the last ones.
  named_not_beyond :
      (config : Profile) (last : LastSyscallMap) (arch : ScmpArch) (name : String) (d : SeccompData)
      → All (IsNamed lib) config.architectures
      → find_last_syscalls lib config ≡ ok last
      → any (names lib d.arch arch) config.architectures ≡ true
      → has_rule name config.syscalls ≡ true
      → lib.syscall_from_name name arch ≡ some (pos d.nr)
      → 0 < d.nr
      → in_mode d.arch arch d.nr ≡ true
      → gets_enosys last d ≡ false
  unfolding gets_enosys read
  named_not_beyond config last arch name d named found listed rule number positive mode =
      let shaped = find_last_syscalls-IsShaped lib config last named found in
      let (q, (recorded, (below, small))) =
        last_of_named config.syscalls arch name d.nr rule number positive in
      let entry : read last d.arch arch ≡ some (pos q) =
        find_last_syscalls-read lib config last d.arch arch found ∙ rw (listed, recorded) in
      elim (Option-cases (lookup d.arch last)) [
        | inl absent ↦ rw (gets_enosys, absent)
        | inr (calls, present) ↦
            rw (gets_enosys, present)
              (not_beyond d.arch d.nr q arch calls
                (Entries-lookup IsEntry d.arch calls last shaped.1 present)
                (ap (λ o. lookup arch (or_empty o)) (sym present) ∙ entry) below small positive
                mode)
      ]

  -- A call of a syscall that a rule of the profile names is decided by the given filter alone, in
  -- every order of the loops, if its number is above zero and is of the ABI of its architecture, that
  -- the profile lists, and no architecture there is "the native one": the filter is patched without an
  -- error, and a run of the patched one is the run of the given one. The filter begins with a load.
  pub enosys_patch_filter_keeps_rules :
      (first second : MapOrder) (config : Profile) (last : LastSyscallMap) (arch : ScmpArch)
      (name : String) (offset : ℕ) (filter : List Instruction) (machine : Machine) (d : SeccompData)
      (a : ℕ)
      → All (IsNamed lib) config.architectures
      → find_last_syscalls lib config ≡ ok last
      → has_rule name config.syscalls ≡ true
      → any (names lib d.arch arch) config.architectures ≡ true
      → lib.syscall_from_name name arch ≡ some (pos d.nr)
      → 0 < d.nr
      → in_mode d.arch arch d.nr ≡ true
      → (full : List Instruction) × ((enosys_patch_filter lib first second config
              (load_absolute offset ∷ filter)
            ≡ ok full)
          × (machine.exec d full a ≡ machine.exec d (load_absolute offset ∷ filter) 0))
  enosys_patch_filter_keeps_rules first second config last arch name offset filter machine d a named
        found rule listed number positive mode =
      let (full, (built, run)) =
        enosys_patch_filter_run lib first second config last offset filter machine d a named
          found in
      (
        full,
        (
          built,
          run
              ∙ rw
                  (named_not_beyond config last arch name d named found listed rule number positive
                    mode)
                  (ground arith),
        ),
      )
