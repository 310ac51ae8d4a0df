-- ===== src/Seccomp/LastSyscalls/Largest.antt =====
-- The numbers that `findLastSyscalls` records are the largest ones of the rules.
use sysbox_runc.Prelude.{
  ℕ, ◌≡◌, ◌∙◌, refl, sym, subst, ◌≤◌, ◌<◌, arith, Bool, true, false, Option, none, some, List, [],
  ◌∷◌, ok, Bool-cases, Option-cases, inl, inr, ◌⊎◌, ltb, any, All,
}
use sysbox_runc.Prelude.Int.{ℤ, pos, negsuc, beq_ℤ}
use sysbox_runc.Specconv.Seccomp.{Call, Profile}
use sysbox_runc.Seccomp.Arch.{ScmpArch, Libseccomp}
use sysbox_runc.Seccomp.LastSyscalls.{LastSyscallMap, largest_syscall, find_last_syscalls}
use sysbox_runc.Seccomp.LastSyscalls.Recorded.{read, last_of, names, find_last_syscalls-read}

-- A number of a syscall, if there is one, that is at most `r`.
abbrev pub IsUpTo : ℕ → Option ℤ → Type 0
IsUpTo r none = Unit
IsUpTo r (some (pos n)) = n ≤ r
IsUpTo r (some (negsuc n)) = Unit

abbrev pub is_number : ℕ → Option ℤ → Bool
is_number r none = false
is_number r (some k) = beq_ℤ k (pos r)

IsUpTo-le : (m r : ℕ) (k : Option ℤ) → m ≤ r → IsUpTo m k → IsUpTo r k
IsUpTo-le m r none h u = tt
IsUpTo-le m r (some (pos n)) h u = omega arith
IsUpTo-le m r (some (negsuc n)) h u = tt

module _ (lib : Libseccomp) where
  abbrev pub AreUpTo : ScmpArch → ℕ → List Call → Type 0
  AreUpTo arch r rules = All (λ rule. IsUpTo r (lib.syscall_from_name rule.name arch)) rules

  abbrev pub has_number : ScmpArch → ℕ → List Call → Bool
  has_number arch r rules = any (λ rule. is_number r (lib.syscall_from_name rule.name arch)) rules

  -- What the loop over the rules yields from `m` on.
  record IsMax (arch : ScmpArch) (m : ℕ) (rules : List Call) (r : ℕ) : Type 0 where
    found : largest_syscall lib arch (pos m) rules ≡ pos r
    above : m ≤ r
    bounds : AreUpTo arch r rules
    reached : (r ≡ m) ⊎ (has_number arch r rules ≡ true)

  -- A rule that leaves the largest number as it was.
  skip-IsMax :
      (arch : ScmpArch) (m : ℕ) (rule : Call) (rules : List Call)
      → largest_syscall lib arch (pos m) (rule ∷ rules) ≡ largest_syscall lib arch (pos m) rules
      → IsUpTo m (lib.syscall_from_name rule.name arch)
      → (r : ℕ) × IsMax arch m rules r
      → (r : ℕ) × IsMax arch m (rule ∷ rules) r
  skip-IsMax arch m rule rules step small (r, later) = (
    r,
    record {
      found = step ∙ later.found;
      above = later.above;
      bounds =
          (IsUpTo-le m r (lib.syscall_from_name rule.name arch) later.above small, later.bounds);
      reached = elim later.reached [ inl start ↦ inl start | inr there ↦ inr (ground arith) ];
    },
  )

  -- A rule with a larger number.
  take-IsMax :
      (arch : ScmpArch) (m n : ℕ) (rule : Call) (rules : List Call)
      → largest_syscall lib arch (pos m) (rule ∷ rules) ≡ largest_syscall lib arch (pos n) rules
      → lib.syscall_from_name rule.name arch ≡ some (pos n)
      → m < n
      → (r : ℕ) × IsMax arch n rules r
      → (r : ℕ) × IsMax arch m (rule ∷ rules) r
  take-IsMax arch m n rule rules step known larger (r, later) = (
    r,
    record {
      found = step ∙ later.found;
      above = omega (arith, later.above);
      bounds = (subst (IsUpTo r) (sym known) later.above, later.bounds);
      reached = elim later.reached [
        | inl start ↦ inr (rw known (ground (arith, start)))
        | inr there ↦ inr (ground arith)
      ];
    },
  )

  largest_syscall-IsMax :
      (arch : ScmpArch) (m : ℕ) (rules : List Call) → (r : ℕ) × IsMax arch m rules r
  unfolding largest_syscall
  largest_syscall-IsMax arch m [] =
      (m, record { found = refl; above = omega arith; bounds = tt; reached = inl refl })
  largest_syscall-IsMax arch m (rule ∷ rules) =
      elim (Option-cases (lib.syscall_from_name rule.name arch)) [
        | inl unknown ↦
            skip-IsMax arch m rule rules (rw (largest_syscall, unknown))
              (subst (IsUpTo m) (sym unknown) tt) (largest_syscall-IsMax arch m rules)
        | inr (negsuc n, known) ↦
            skip-IsMax arch m rule rules (rw (largest_syscall, known))
              (subst (IsUpTo m) (sym known) tt) (largest_syscall-IsMax arch m rules)
        | inr (pos n, known) ↦ elim (Bool-cases (ltb m n)) [
          | inl larger ↦
              take-IsMax arch m n rule rules (rw (largest_syscall, known, larger)) known
                (ground arith) (largest_syscall-IsMax arch n rules)
          | inr not_larger ↦
              skip-IsMax arch m rule rules (rw (largest_syscall, known, not_larger))
                (subst (IsUpTo m) (sym known) (ground arith)) (largest_syscall-IsMax arch m rules)
        ]
      ]

  -- What stands in the map, where a name of the profile may stand for the architecture.
  pub data IsLast (rules : List Call) (arch : ScmpArch) (named : Bool) : Option ℤ → Type 0 where
    not_named : named ≡ false → IsLast rules arch named none
    none_above : named ≡ true → AreUpTo arch 0 rules → IsLast rules arch named none
    largest :
        (r : ℕ)
        → named ≡ true
        → 0 < r
        → AreUpTo arch r rules
        → has_number arch r rules ≡ true
        → IsLast rules arch named (some (pos r))

  last_of-IsLast :
      (rules : List Call) (arch : ScmpArch) (named : Bool)
      → named ≡ true
      → IsLast rules arch named (last_of lib rules arch)
  unfolding last_of
  last_of-IsLast rules arch named listed =
      let (r, max) = largest_syscall-IsMax arch 0 rules in
      elim (Bool-cases (beq_ℤ (pos r) (pos 0))) [
        | inl at_zero ↦
            let is_zero : r ≡ 0 = ground arith in
            rw (max.found, at_zero)
              (none_above listed (subst (λ n. AreUpTo arch n rules) is_zero max.bounds))
        | inr some_number ↦
            rw (max.found, some_number)
              (largest r listed (ground arith) max.bounds (ground (arith, max.reached)))
      ]

  -- If the last syscalls are found, the map has no entry for an architecture and a native one if no
  -- name of the profile stands for the two, and none if no rule has a number above zero there. If
  -- not, its entry is above zero, is the number of a rule and is not below that of any rule.
  pub find_last_syscalls-IsLast :
      (config : Profile) (last : LastSyscallMap) (j : ℕ) (b : ScmpArch)
      → find_last_syscalls lib config ≡ ok last
      → IsLast config.syscalls b (any (names lib j b) config.architectures) (read last j b)
  find_last_syscalls-IsLast config last j b found =
      let entry = find_last_syscalls-read lib config last j b found in
      elim (Bool-cases (any (names lib j b) config.architectures)) [
        | inl listed ↦
            subst (IsLast config.syscalls b (any (names lib j b) config.architectures))
              (sym (entry ∙ rw listed))
              (last_of-IsLast config.syscalls b (any (names lib j b) config.architectures) listed)
        | inr absent ↦
            subst (IsLast config.syscalls b (any (names lib j b) config.architectures))
              (sym (entry ∙ rw absent)) (not_named absent)
      ]
