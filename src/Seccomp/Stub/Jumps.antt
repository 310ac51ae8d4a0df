-- ===== src/Seccomp/Stub/Jumps.antt =====
-- Where the jumps of a section lead: over the sections behind it to the return of ENOSYS, or over that
-- too into the filter.
use mathlib.Core.List.{append_assoc}
use sysbox_runc.Prelude.{
  ℕ, ◌≡◌, ◌∙◌, sym, ap, ◌+◌, ◌<◌, arith, Bool, true, false, Option, some, List, [], ◌∷◌, ◌++◌,
  length, length-append, if◌then◌else◌,
}
use sysbox_runc.Seccomp.Bpf.{
  JumpTest, Instruction, jump, jump_if, ret_constant, SeccompData, passes, Machine,
}
use sysbox_runc.Seccomp.Stub.{ret_errno_enosys}

-- The end of the stub, and the filter behind it.
abbrev pub enosys_then : List Instruction → List Instruction
enosys_then filter = ret_constant ret_errno_enosys ∷ filter

module _ (machine : Machine) (d : SeccompData) where
  -- A jump of a distance that is the length of what it skips.
  pub exec-jump :
      (n : ℕ) (over k : List Instruction) (a : ℕ)
      → n ≡ length over
      → 0 < length k
      → machine.exec d (jump n ∷ (over ++ k)) a ≡ machine.exec d k a
  exec-jump n over k a same room =
      ap (λ m. machine.exec d (jump m ∷ (over ++ k)) a) same ∙ machine.on_jump d over k a room

  -- A conditional jump goes where the one of its two jumps goes.
  pub exec-jump_if :
      (test : JumpTest) (v yes_skip no_skip : ℕ) (k : List Instruction) (a : ℕ) (r s : Option ℕ)
      → machine.exec d (jump yes_skip ∷ k) a ≡ r
      → machine.exec d (jump no_skip ∷ k) a ≡ s
      → machine.exec d (jump_if test v yes_skip no_skip ∷ k) a ≡ (if passes test a v then r else s)
  exec-jump_if test v yes_skip no_skip k a r s yes_run no_run =
      machine.on_jump_if d test v yes_skip no_skip k a ∙ choose (passes test a v)
    where
      choose :
          (b : Bool)
          → machine.exec d (jump (if b then yes_skip else no_skip) ∷ k) a ≡ (if b then r else s)
      choose true = yes_run
      choose false = no_run

  module _ (front filter : List Instruction) (room : 0 < length filter) where
    pub jump-enosys :
        (n : ℕ) (over : List Instruction) (a : ℕ)
        → n ≡ length over + length front
        → machine.exec d (jump n ∷ (over ++ (front ++ enosys_then filter))) a
          ≡ some ret_errno_enosys
    jump-enosys n over a same =
        ap (λ k. machine.exec d (jump n ∷ k) a) (sym (append_assoc over front (enosys_then filter)))
        ∙ exec-jump n (over ++ front) (enosys_then filter) a (same ∙ sym (length-append over front))
            (omega arith)
        ∙ machine.on_return d ret_errno_enosys filter a

    pub jump-filter :
        (n : ℕ) (over : List Instruction) (a : ℕ)
        → n ≡ length over + length front + 1
        → machine.exec d (jump n ∷ (over ++ (front ++ enosys_then filter))) a
          ≡ machine.exec d filter a
    jump-filter n over a same =
        ap (λ k. machine.exec d (jump n ∷ k) a)
          (sym (
            append_assoc (over ++ front) (ret_constant ret_errno_enosys ∷ []) filter
            ∙ append_assoc over front (enosys_then filter)))
        ∙ exec-jump n ((over ++ front) ++ ret_constant ret_errno_enosys ∷ []) filter a
            (omega (
              arith,
              same,
              length-append (over ++ front) (ret_constant ret_errno_enosys ∷ []),
              length-append over front,
            ))
            room
