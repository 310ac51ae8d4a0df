-- ===== src/Seccomp/LastSyscalls/Shape.antt =====
-- The shape of the map of `findLastSyscalls`.
use sysbox_runc.Prelude.{
  ℕ, ◌≡◌, ◌∙◌, refl, ap, subst, arith, some, List, [], ◌∷◌, String, ok, ◌>>=◌, Bool-cases,
  Option-cases, inl, inr, ◌≢◌, nat_eq, value_of, ok_inj, lookup, put, delete, IsMap, put-IsMap,
  delete-IsMap, Entries, Entries-lookup, Entries-put, Entries-delete, All,
}
use sysbox_runc.Prelude.Int.{ℤ, pos, beq_ℤ}
use sysbox_runc.Specconv.Seccomp.{Call, Profile}
use sysbox_runc.Seccomp.Arch.{ScmpArch, native, arch_eq, Libseccomp, arch_to_native, audit_arch}
use sysbox_runc.Seccomp.LastSyscalls.{
  MaxSyscalls, LastSyscallMap, or_empty, largest_syscall, record_largest, find_arch, find_archs,
  find_last_syscalls,
}

-- An entry holds architectures of its native one, each once.
abbrev pub HasNative : ℕ → ScmpArch → ℤ → Type 0
HasNative n arch sysno = audit_arch arch ≡ ok n

pub record IsEntry (n : ℕ) (calls : MaxSyscalls) : Type 0 where
  pub distinct : IsMap calls
  pub natives : Entries (HasNative n) calls

abbrev pub IsShaped : LastSyscallMap → Type 0
IsShaped last = IsMap last × Entries IsEntry last

or_empty-IsEntry :
    (n : ℕ) (last : LastSyscallMap) → IsShaped last → IsEntry n (or_empty (lookup n last))
unfolding lookup
or_empty-IsEntry n last (distinct, all_last) = elim (Option-cases (lookup n last)) [
  | inl absent ↦ rw absent (record { distinct = tt; natives = tt })
  | inr (calls, found) ↦ rw found (Entries-lookup IsEntry n calls last all_last found)
]

put-IsShaped :
    (n : ℕ) (calls : MaxSyscalls) (last : LastSyscallMap)
    → IsShaped last
    → IsEntry n calls
    → IsShaped (put n calls last)
put-IsShaped n calls last (distinct, all_last) entry =
    (put-IsMap n calls last distinct, Entries-put IsEntry n calls last all_last entry)

module _ (lib : Libseccomp) where
  find_arch-IsShaped :
      (rules : List Call) (arch : ScmpArch) (n : ℕ) (last : LastSyscallMap)
      → audit_arch arch ≡ ok n
      → IsShaped last
      → IsShaped (find_arch lib rules arch n last)
  unfolding find_arch record_largest
  find_arch-IsShaped rules arch n last is_native shaped =
      let seen = or_empty (lookup n last) in
      let entry = or_empty-IsEntry n last shaped in
      let largest = largest_syscall lib arch (pos 0) rules in
      elim (Option-cases (lookup arch seen)) [
        | inr (v, old) ↦ rw (find_arch, old) shaped
        | inl new ↦
            rw (find_arch, new)
              (elim (Bool-cases (beq_ℤ largest (pos 0))) [
                | inl no_rule ↦
                    rw (record_largest, no_rule)
                      (put-IsShaped n (delete arch seen) last shaped (record {
                        distinct = delete-IsMap arch seen entry.distinct;
                        natives = Entries-delete (HasNative n) arch seen entry.natives;
                      }))
                | inr some_rule ↦
                    rw (record_largest, some_rule)
                      (put-IsShaped n (put arch largest seen) last shaped (record {
                        distinct = put-IsMap arch largest seen entry.distinct;
                        natives =
                            Entries-put (HasNative n) arch largest seen entry.natives is_native;
                      }))
              ])
      ]

  -- A name that does not stand for "the native architecture".
  abbrev pub IsNamed : String → Type 0
  IsNamed s = lib.arch_from_string s ≢ some native

  named_native :
      (arch : ScmpArch) (n : ℕ)
      → arch ≢ native
      → arch_to_native lib arch ≡ ok n
      → audit_arch arch ≡ ok n
  unfolding arch_to_native
  named_native native n other h = absurd (other refl)
  named_native _ n other h = h

  pub find_archs-IsShaped :
      (rules : List Call) (archs : List String) (last last' : LastSyscallMap)
      → All IsNamed archs
      → find_archs lib rules archs last ≡ ok last'
      → IsShaped last
      → IsShaped last'
  unfolding find_archs
  find_archs-IsShaped rules [] last last' named built shaped = subst IsShaped (ok_inj built) shaped
  find_archs-IsShaped rules (s ∷ archs) last last' named built shaped =
      elim (Option-cases (lib.arch_from_string s)) [
        | inl unknown ↦ ground arith
        | inr (arch, known) ↦
            let chain : (arch_to_native lib arch
                  >>= (λ n. find_archs lib rules archs (find_arch lib rules arch n last)))
                ≡ ok last' =
              rw (find_archs, known) at built in
            let (n, (native_known, later)) = value_of (arch_to_native lib arch) _ last' chain in
            find_archs-IsShaped rules archs (find_arch lib rules arch n last) last' named.1 later (
              find_arch-IsShaped rules arch n last
                (named_native arch n (λ is_native. named.0 (known ∙ ap some is_native))
                  native_known)
                shaped)
      ]

  -- If no name of the profile stands for the native architecture, each native architecture has one
  -- entry, which holds architectures of it, each once.
  pub find_last_syscalls-IsShaped :
      (config : Profile) (last : LastSyscallMap)
      → All IsNamed config.architectures
      → find_last_syscalls lib config ≡ ok last
      → IsShaped last
  unfolding find_last_syscalls lookup
  find_last_syscalls-IsShaped config last named found =
      find_archs-IsShaped config.syscalls config.architectures [] last named found (tt, tt)
