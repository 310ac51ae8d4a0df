-- ===== src/Devices/Filter/Machine.antt =====
-- The kernel's machine, as far as the program uses it: the documented meaning of its instructions.
use Prim.Native.Nat.{bit_and}
use sysbox_runc.Prelude.{
  ℕ, ◌≡◌, ◌/◌, ◌^◌, ◌<◌, Bool, true, false, Option, none, some, List, [], ◌∷◌, if◌then◌else◌, ◌==◌,
  nat_eq,
}
use sysbox_runc.Devices.Filter.{
  Register, r0, r1, r2, r3, r4, r5, Instruction, load_word, and_imm32, rsh_imm32, mov_reg32,
  mov_imm32, jne_imm, jeq_imm, block, return,
}

-- `struct bpf_cgroup_dev_ctx`
pub record Context : Type 0 where
  pub access_type : ℕ
  pub major : ℕ
  pub minor : ℕ

unfoldable pub word_at : ℕ → Context → ℕ
word_at offset ctx =
    if offset == 0 then ctx.access_type else if offset == 4 then ctx.major else ctx.minor

abbrev pub same_register : Register → Register → Bool
same_register r0 r0 = true
same_register r1 r1 = true
same_register r2 r2 = true
same_register r3 r3 = true
same_register r4 r4 = true
same_register r5 r5 = true
same_register _ _ = false

-- What the registers hold: `none` is no number, such as the pointer to the context.
abbrev pub Registers : Type 0
Registers = Register → Option ℕ

abbrev pub store : Register → ℕ → Registers → Registers
store d v regs r = if same_register r d then some v else regs r

-- The registers at the start.
abbrev pub start : Registers
start r = none

-- The instructions after a symbol.
unfoldable pub after_block : ℕ → List Instruction → List Instruction
after_block b [] = []
after_block b (load_word _ _ _ ∷ k) = after_block b k
after_block b (and_imm32 _ _ ∷ k) = after_block b k
after_block b (rsh_imm32 _ _ ∷ k) = after_block b k
after_block b (mov_reg32 _ _ ∷ k) = after_block b k
after_block b (mov_imm32 _ _ ∷ k) = after_block b k
after_block b (jne_imm _ _ _ ∷ k) = after_block b k
after_block b (jeq_imm _ _ _ ∷ k) = after_block b k
after_block b (block c ∷ k) = let rest = after_block b k in if b == c then k else rest
after_block b (return ∷ k) = after_block b k

-- `exec` is the value that a run returns. A jump compares 64 bits, and extends the sign of its
-- immediate: its law is stated for immediates below 2^31.
pub record Machine : Type 0 where
  pub exec : Context → List Instruction → Registers → Option ℕ
  pub on_load :
      (ctx : Context) (d : Register) (offset : ℕ) (k : List Instruction) (s : Registers)
      → s r1 ≡ none
      → exec ctx (load_word d r1 offset ∷ k) s ≡ exec ctx k (store d (word_at offset ctx) s)
  pub on_and :
      (ctx : Context) (d : Register) (n v : ℕ) (k : List Instruction) (s : Registers)
      → s d ≡ some v
      → exec ctx (and_imm32 d n ∷ k) s ≡ exec ctx k (store d (bit_and v n) s)
  pub on_rsh :
      (ctx : Context) (d : Register) (n v : ℕ) (k : List Instruction) (s : Registers)
      → s d ≡ some v
      → v < 2 ^ 32
      → exec ctx (rsh_imm32 d n ∷ k) s ≡ exec ctx k (store d (v / 2 ^ n) s)
  pub on_mov_reg :
      (ctx : Context) (d r : Register) (v : ℕ) (k : List Instruction) (s : Registers)
      → s r ≡ some v
      → v < 2 ^ 32
      → exec ctx (mov_reg32 d r ∷ k) s ≡ exec ctx k (store d v s)
  pub on_mov_imm :
      (ctx : Context) (d : Register) (n : ℕ) (k : List Instruction) (s : Registers)
      → n < 2 ^ 31
      → exec ctx (mov_imm32 d n ∷ k) s ≡ exec ctx k (store d n s)
  pub on_jne :
      (ctx : Context) (r : Register) (n b v : ℕ) (k : List Instruction) (s : Registers)
      → s r ≡ some v
      → n < 2 ^ 31
      → exec ctx (jne_imm r n b ∷ k) s
        ≡ (if v == n then exec ctx k s else exec ctx (after_block b k) s)
  pub on_jeq :
      (ctx : Context) (r : Register) (n b v : ℕ) (k : List Instruction) (s : Registers)
      → s r ≡ some v
      → n < 2 ^ 31
      → exec ctx (jeq_imm r n b ∷ k) s
        ≡ (if v == n then exec ctx (after_block b k) s else exec ctx k s)
  pub on_block :
      (ctx : Context) (b : ℕ) (k : List Instruction) (s : Registers)
      → exec ctx (block b ∷ k) s ≡ exec ctx k s
  pub on_return :
      (ctx : Context) (v : ℕ) (k : List Instruction) (s : Registers)
      → s r0 ≡ some v
      → exec ctx (return ∷ k) s ≡ some v
