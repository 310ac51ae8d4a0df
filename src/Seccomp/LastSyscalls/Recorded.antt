-- ===== src/Seccomp/LastSyscalls/Recorded.antt =====
-- What `findLastSyscalls` records.
use sysbox_runc.Prelude.{
  ℕ, ◌≡◌, ◌∙◌, refl, sym, ap, arith, Bool, false, ◌&&◌, ◌||◌, Option, none, some, List, [], ◌∷◌,
  String, Result, ok, err, if◌then◌else◌, Bool-cases, Option-cases, inl, inr, ◌⊎◌, ◌==◌, nat_eq,
  string_eq, any, value_of, ◌>>=◌, ok_inj, lookup, put, delete, lookup-put, lookup-delete,
}
use sysbox_runc.Prelude.Int.{ℤ, pos, beq_ℤ}
use sysbox_runc.Specconv.Seccomp.{Call, Profile}
use sysbox_runc.Seccomp.Arch.{ScmpArch, arch_eq, Libseccomp, PatchError, arch_to_native}
use sysbox_runc.Seccomp.LastSyscalls.{
  MaxSyscalls, LastSyscallMap, or_empty, largest_syscall, record_largest, find_arch, find_archs,
  find_last_syscalls,
}

-- The number that a map holds for an architecture of a native one.
unfoldable pub read : LastSyscallMap → ℕ → ScmpArch → Option ℤ
read last native_arch arch = lookup arch (or_empty (lookup native_arch last))

regroup :
    (here later : Bool) (v w u : Option ℤ)
    → u ≡ (if here then v else w)
    → (if later then v else u) ≡ (if here || later then v else w)
regroup here later v w u e = ground arith

read-put :
    (last : LastSyscallMap) (n j : ℕ) (m : MaxSyscalls) (arch : ScmpArch)
    → read (put n m last) j arch ≡ (if n == j then lookup arch m else read last j arch)
unfolding read
read-put last n j m arch = rw (lookup-put n j m last) (ground arith)

module _ (lib : Libseccomp) where
  -- What is recorded for an architecture: the number that the loop over the rules yields, if not zero.
  unfoldable pub last_of : List Call → ScmpArch → Option ℤ
  last_of rules arch =
      let largest = largest_syscall lib arch (pos 0) rules in
      if beq_ℤ largest (pos 0) then none else some largest

  record_largest-read :
      (rules : List Call) (arch : ScmpArch) (n : ℕ) (last : LastSyscallMap) (j : ℕ) (b : ScmpArch)
      → read last n arch ≡ none
      → read (record_largest lib rules arch n (or_empty (lookup n last)) last) j b
        ≡ (if (n == j) && (arch == b) then last_of rules arch else read last j b)
  unfolding record_largest last_of read
  record_largest-read rules arch n last j b new =
      elim (Bool-cases (beq_ℤ (largest_syscall lib arch (pos 0) rules) (pos 0))) [
        | inl zero_largest ↦ rw zero_largest (
            read-put last n j (delete arch (or_empty (lookup n last))) b
            ∙ ground (arith, lookup-delete arch b (or_empty (lookup n last)), nat_eq.beq_iff n j))
        | inr some_largest ↦ rw some_largest (
            read-put last n j
              (put arch (largest_syscall lib arch (pos 0) rules) (or_empty (lookup n last))) b
            ∙ ground (
              arith,
              lookup-put arch b (largest_syscall lib arch (pos 0) rules) (or_empty (lookup n last)),
              nat_eq.beq_iff n j,
            ))
      ]

  -- Every entry so far is the right one.
  abbrev IsRecorded : List Call → LastSyscallMap → Type 0
  IsRecorded rules last =
      (j : ℕ) (b : ScmpArch) → (read last j b ≡ none) ⊎ (read last j b ≡ last_of rules b)

  find_arch-read :
      (rules : List Call) (arch : ScmpArch) (n : ℕ) (last : LastSyscallMap) (j : ℕ) (b : ScmpArch)
      → IsRecorded rules last
      → read (find_arch lib rules arch n last) j b
        ≡ (if (n == j) && (arch == b) then last_of rules b else read last j b)
  unfolding find_arch read
  find_arch-read rules arch n last j b recorded =
      elim (Option-cases (lookup arch (or_empty (lookup n last)))) [
        | inl new ↦
            rw (find_arch, new)
              (record_largest-read rules arch n last j b new
                ∙ ground (arith, arch_eq.beq_iff arch b))
        | inr (v, old) ↦
            rw (find_arch, old)
              (ground (arith, recorded n arch, nat_eq.beq_iff n j, arch_eq.beq_iff arch b, old))
      ]

  find_arch-IsRecorded :
      (rules : List Call) (arch : ScmpArch) (n : ℕ) (last : LastSyscallMap)
      → IsRecorded rules last
      → IsRecorded rules (find_arch lib rules arch n last)
  find_arch-IsRecorded rules arch n last recorded j b =
      elim (Bool-cases ((n == j) && (arch == b))) [
        | inl this ↦ inr (find_arch-read rules arch n last j b recorded ∙ rw this)
        | inr other ↦
            let same : read (find_arch lib rules arch n last) j b ≡ read last j b =
              find_arch-read rules arch n last j b recorded ∙ rw other in
            elim (recorded j b) [
              | inl none_there ↦ inl (same ∙ none_there)
              | inr right ↦ inr (same ∙ right)
            ]
      ]

  abbrev is_number : Result PatchError ℕ → ℕ → Bool
  is_number (ok n) j = n == j
  is_number (err e) j = false

  -- Whether a name of the profile is that of an architecture with a native one.
  unfoldable pub names : ℕ → ScmpArch → String → Bool
  names j b s = elim (lib.arch_from_string s) [
    | none ↦ false
    | some arch ↦ is_number (arch_to_native lib arch) j && (arch == b)
  ]

  pub names_known :
      (j : ℕ) (b : ScmpArch) (s : String) (arch : ScmpArch) (n : ℕ)
      → lib.arch_from_string s ≡ some arch
      → arch_to_native lib arch ≡ ok n
      → names j b s ≡ ((n == j) && (arch == b))
  unfolding names
  names_known j b s arch n known native_known = rw (names, known, native_known)

  find_archs-read :
      (rules : List Call) (archs : List String) (last last' : LastSyscallMap) (j : ℕ) (b : ScmpArch)
      → IsRecorded rules last
      → find_archs lib rules archs last ≡ ok last'
      → read last' j b ≡ (if any (names j b) archs then last_of rules b else read last j b)
  unfolding find_archs
  find_archs-read rules [] last last' j b recorded built = ap (λ m. read m j b) (sym (ok_inj built))
  find_archs-read rules (s ∷ archs) last last' j b recorded built =
      elim (Option-cases (lib.arch_from_string s)) [
        | inl unknown ↦ ground arith
        | inr (arch, known) ↦
            let chain : (arch_to_native lib arch
                  >>= (λ n. find_archs lib rules archs (find_arch lib rules arch n last)))
                ≡ ok last' =
              rw (find_archs, known) at built in
            let (n, (native_known, later)) = value_of (arch_to_native lib arch) _ last' chain in
            find_archs-read rules archs (find_arch lib rules arch n last) last' j b
              (find_arch-IsRecorded rules arch n last recorded) later
            ∙ regroup ((n == j) && (arch == b)) (any (names j b) archs) (last_of rules b)
                (read last j b) (read (find_arch lib rules arch n last) j b)
                (find_arch-read rules arch n last j b recorded)
            ∙ ap (λ here. if here || any (names j b) archs then last_of rules b else read last j b)
                (sym (names_known j b s arch n known native_known))
      ]

  -- If the last syscalls are found, the map has an entry for an architecture and a native one only
  -- where a name of the profile stands for the two, and then what is recorded for the architecture.
  pub find_last_syscalls-read :
      (config : Profile) (last : LastSyscallMap) (j : ℕ) (b : ScmpArch)
      → find_last_syscalls lib config ≡ ok last
      → read last j b
        ≡ (if any (names j b) config.architectures then last_of config.syscalls b else none)
  unfolding find_last_syscalls read lookup
  find_last_syscalls-read config last j b found =
      find_archs-read config.syscalls config.architectures [] last j b (λ i c. inl refl) found
