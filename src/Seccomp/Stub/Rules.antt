-- ===== src/Seccomp/Stub/Rules.antt =====
-- The rules on the number of a syscall: ENOSYS above it, the filter for the others.
use sysbox_runc.Prelude.{
  ℕ, ◌≡◌, ◌∙◌, refl, ◌+◌, ◌-◌, ◌<◌, arith, Bool, true, Option, some, List, [], ◌∷◌, ◌++◌, length,
  length-append, if◌then◌else◌, Bool-cases, inl, inr, nat_eq, leb, ltb,
}
use sysbox_runc.Prelude.Int.{ℤ}
use sysbox_runc.Seccomp.Bpf.{
  Instruction, jump, jump_if, ret_constant, SeccompData, passes, Machine, uint8, greater_than,
  less_or_equal,
}
use sysbox_runc.Seccomp.Arch.{arch_eq}
use sysbox_runc.Seccomp.Stub.{ret_errno_enosys, uint32, sysno_rule}
use sysbox_runc.Seccomp.Stub.Jumps.{enosys_then, exec-jump, exec-jump_if, jump-enosys, jump-filter}

pub uint8_small : (n : ℕ) → leb n 255 ≡ true → uint8 n ≡ n
uint8_small n h = ground arith

module _ (machine : Machine) (d : SeccompData) (front filter : List Instruction) (result : Option ℕ)
    (room : 0 < length filter) (entry : (a : ℕ) → machine.exec d filter a ≡ result) where
  -- What follows a section, and what a decision leads to.
  abbrev pub rest : List Instruction
  rest = front ++ enosys_then filter

  abbrev pub outcome : Bool → Option ℕ
  outcome b = if b then some ret_errno_enosys else result

  pub rest-pos : 0 < length rest
  rest-pos = omega (arith, length-append front (enosys_then filter))

  pub to_filter :
      (n : ℕ) (over : List Instruction) (a : ℕ)
      → n ≡ length over + length front + 1
      → machine.exec d (jump n ∷ (over ++ rest)) a ≡ result
  to_filter n over a same = jump-filter machine d front filter room n over a same ∙ entry a

  -- The rule by a short jump, and that by a long one.
  pub short_rule :
      (v a : ℕ)
      → leb (length front + 1) 255 ≡ true
      → machine.exec d
          (jump_if greater_than v (uint8 (length front + 1)) 0 ∷ jump (length front + 1) ∷ rest)
          a
        ≡ outcome (ltb v a)
  unfolding passes
  short_rule v a short =
      exec-jump_if machine d greater_than v (uint8 (length front + 1)) 0
        (jump (length front + 1) ∷ rest) a (some ret_errno_enosys) result
        (jump-enosys machine d front filter room (uint8 (length front + 1))
          (jump (length front + 1) ∷ []) a (uint8_small (length front + 1) short ∙ omega arith))
        (exec-jump machine d 0 [] (jump (length front + 1) ∷ rest) a refl (omega arith)
          ∙ to_filter (length front + 1) [] a (omega arith))

  pub long_rule :
      (v a : ℕ)
      → machine.exec d
          (jump_if less_or_equal v 1 0
            ∷ ret_constant ret_errno_enosys
            ∷ jump (length front + 1)
            ∷ rest)
          a
        ≡ outcome (ltb v a)
  unfolding passes
  long_rule v a =
      exec-jump_if machine d less_or_equal v 1 0
        (ret_constant ret_errno_enosys ∷ jump (length front + 1) ∷ rest) a result
        (some ret_errno_enosys)
        (exec-jump machine d 1 (ret_constant ret_errno_enosys ∷ []) (jump (length front + 1) ∷ rest)
            a refl (omega arith)
          ∙ to_filter (length front + 1) [] a (omega arith))
        (exec-jump machine d 0 [] (ret_constant ret_errno_enosys ∷ jump (length front + 1) ∷ rest) a
            refl (omega arith)
          ∙ machine.on_return d ret_errno_enosys (jump (length front + 1) ∷ rest) a)
      ∙ ground arith

  pub sysno_rule_lem :
      (sysno : ℤ) (a : ℕ)
      → machine.exec d (sysno_rule (length front) sysno ++ rest) a ≡ outcome (ltb (uint32 sysno) a)
  unfolding sysno_rule
  sysno_rule_lem sysno a = elim (Bool-cases (leb (length front + 1) 255)) [
    | inl short ↦ rw short (short_rule (uint32 sysno) a short)
    | inr long ↦ rw long (long_rule (uint32 sysno) a)
  ]

  -- The jump of a wrong mode passes the rule.
  pub past_sysno :
      (sysno : ℤ) (a : ℕ)
      → machine.exec d
          (jump (uint8 (length (sysno_rule (length front) sysno) - 1))
            ∷ (sysno_rule (length front) sysno ++ rest))
          a
        ≡ result
  unfolding sysno_rule
  past_sysno sysno a = elim (Bool-cases (leb (length front + 1) 255)) [
    | inl short ↦ rw short (
        exec-jump machine d 1
          (jump_if greater_than (uint32 sysno) (uint8 (length front + 1)) 0 ∷ [])
          (jump (length front + 1) ∷ rest) a refl (omega arith)
        ∙ to_filter (length front + 1) [] a (omega arith))
    | inr long ↦ rw long (
        exec-jump machine d 2
          (jump_if less_or_equal (uint32 sysno) 1 0 ∷ ret_constant ret_errno_enosys ∷ [])
          (jump (length front + 1) ∷ rest) a refl (omega arith)
        ∙ to_filter (length front + 1) [] a (omega arith))
  ]

  pub sysno_rule-pos : (sysno : ℤ) → 0 < length (sysno_rule (length front) sysno ++ rest)
  sysno_rule-pos sysno =
      omega (arith, length-append (sysno_rule (length front) sysno) rest, rest-pos)
