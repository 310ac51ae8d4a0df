-- ===== src/Devices/Filter/Interpreter.antt =====
-- A machine that satisfies the documented laws: it steps through the program, and jumps forwards.
use Prim.Native.Nat.{bit_and}
use sysbox_runc.Prelude.{
  ℕ, ◌≡◌, refl, ap, arith, ◌/◌, ◌^◌, Option, none, some, List, [], ◌∷◌, if◌then◌else◌, ◌==◌, nat_eq,
}
use sysbox_runc.Devices.Filter.{
  Register, r0, r1, Instruction, load_word, and_imm32, rsh_imm32, mov_reg32, mov_imm32, jne_imm,
  jeq_imm, block, return,
}
use sysbox_runc.Devices.Filter.Machine.{Context, word_at, Registers, store, after_block, Machine}

abbrev Run : Type 0
Run = Registers → Option ℕ

abbrev with_value : Option ℕ → (ℕ → Option ℕ) → Option ℕ
with_value none f = none
with_value (some v) f = f v

-- One instruction, given the run of what follows and the runs from the symbols there.
unfoldable run_one : Context → Instruction → Run → (ℕ → Run) → Run
run_one ctx (load_word d r offset) go jump s = go (store d (word_at offset ctx) s)
run_one ctx (and_imm32 d n) go jump s = with_value (s d) λ v. go (store d (bit_and v n) s)
run_one ctx (rsh_imm32 d n) go jump s = with_value (s d) λ v. go (store d (v / 2 ^ n) s)
run_one ctx (mov_reg32 d r) go jump s = with_value (s r) λ v. go (store d v s)
run_one ctx (mov_imm32 d n) go jump s = go (store d n s)
run_one ctx (jne_imm r n b) go jump s = with_value (s r) λ v. if v == n then go s else jump b s
run_one ctx (jeq_imm r n b) go jump s = with_value (s r) λ v. if v == n then jump b s else go s
run_one ctx (block b) go jump s = go s
run_one ctx return go jump s = s r0

unfoldable jump_one : Instruction → Run → (ℕ → Run) → ℕ → Run
jump_one (block c) go jump b s = if b == c then go s else jump b s
jump_one _ go jump b s = jump b s

unfoldable runs : Context → List Instruction → Run × (ℕ → Run)
runs ctx [] = (λ s. none, λ b s. none)
runs ctx (i ∷ k) = let rest = runs ctx k in (run_one ctx i rest.0 rest.1, jump_one i rest.0 rest.1)

runs-after_block :
    (ctx : Context) (b : ℕ) (k : List Instruction) (s : Registers)
    → (runs ctx k).1 b s ≡ (runs ctx (after_block b k)).0 s
unfolding runs after_block jump_one
runs-after_block ctx b [] s = refl
runs-after_block ctx b (load_word _ _ _ ∷ k) s = runs-after_block ctx b k s
runs-after_block ctx b (and_imm32 _ _ ∷ k) s = runs-after_block ctx b k s
runs-after_block ctx b (rsh_imm32 _ _ ∷ k) s = runs-after_block ctx b k s
runs-after_block ctx b (mov_reg32 _ _ ∷ k) s = runs-after_block ctx b k s
runs-after_block ctx b (mov_imm32 _ _ ∷ k) s = runs-after_block ctx b k s
runs-after_block ctx b (jne_imm _ _ _ ∷ k) s = runs-after_block ctx b k s
runs-after_block ctx b (jeq_imm _ _ _ ∷ k) s = runs-after_block ctx b k s
runs-after_block ctx b (block c ∷ k) s = ground (arith, runs-after_block ctx b k s)
runs-after_block ctx b (return ∷ k) s = runs-after_block ctx b k s

jne_law :
    (ctx : Context) (r : Register) (n b v : ℕ) (k : List Instruction) (s : Registers)
    → s r ≡ some v
    → (runs ctx (jne_imm r n b ∷ k)).0 s
      ≡ (if v == n then (runs ctx k).0 s else (runs ctx (after_block b k)).0 s)
unfolding runs run_one
jne_law ctx r n b v k s e = ground (arith, runs-after_block ctx b k s)

jeq_law :
    (ctx : Context) (r : Register) (n b v : ℕ) (k : List Instruction) (s : Registers)
    → s r ≡ some v
    → (runs ctx (jeq_imm r n b ∷ k)).0 s
      ≡ (if v == n then (runs ctx (after_block b k)).0 s else (runs ctx k).0 s)
unfolding runs run_one
jeq_law ctx r n b v k s e = ground (arith, runs-after_block ctx b k s)

and_law :
    (ctx : Context) (d : Register) (n v : ℕ) (k : List Instruction) (s : Registers)
    → s d ≡ some v
    → (runs ctx (and_imm32 d n ∷ k)).0 s ≡ (runs ctx k).0 (store d (bit_and v n) s)
unfolding runs run_one
and_law ctx d n v k s e = ap (λ o. with_value o λ v. (runs ctx k).0 (store d (bit_and v n) s)) e

rsh_law :
    (ctx : Context) (d : Register) (n v : ℕ) (k : List Instruction) (s : Registers)
    → s d ≡ some v
    → (runs ctx (rsh_imm32 d n ∷ k)).0 s ≡ (runs ctx k).0 (store d (v / 2 ^ n) s)
unfolding runs run_one
rsh_law ctx d n v k s e = ap (λ o. with_value o λ v. (runs ctx k).0 (store d (v / 2 ^ n) s)) e

mov_law :
    (ctx : Context) (d r : Register) (v : ℕ) (k : List Instruction) (s : Registers)
    → s r ≡ some v
    → (runs ctx (mov_reg32 d r ∷ k)).0 s ≡ (runs ctx k).0 (store d v s)
unfolding runs run_one
mov_law ctx d r v k s e = ap (λ o. with_value o λ v. (runs ctx k).0 (store d v s)) e

return_law :
    (ctx : Context) (v : ℕ) (k : List Instruction) (s : Registers)
    → s r0 ≡ some v
    → (runs ctx (return ∷ k)).0 s ≡ some v
unfolding runs run_one
return_law ctx v k s e = e

plain_laws :
    (ctx : Context) (d : Register) (n b : ℕ) (k : List Instruction) (s : Registers)
    → ((runs ctx (load_word d r1 n ∷ k)).0 s ≡ (runs ctx k).0 (store d (word_at n ctx) s))
      × ((runs ctx (mov_imm32 d n ∷ k)).0 s ≡ (runs ctx k).0 (store d n s))
      × ((runs ctx (block b ∷ k)).0 s ≡ (runs ctx k).0 s)
unfolding runs run_one
plain_laws ctx d n b k s = (refl, refl, refl)

pub interpreter : Machine
interpreter = record {
  exec = λ ctx k s. (runs ctx k).0 s;
  on_load = λ ctx d offset k s e. (plain_laws ctx d offset 0 k s).0;
  on_and = and_law;
  on_rsh = λ ctx d n v k s e small. rsh_law ctx d n v k s e;
  on_mov_reg = λ ctx d r v k s e small. mov_law ctx d r v k s e;
  on_mov_imm = λ ctx d n k s small. (plain_laws ctx d n 0 k s).1;
  on_jne = λ ctx r n b v k s e small. jne_law ctx r n b v k s e;
  on_jeq = λ ctx r n b v k s e small. jeq_law ctx r n b v k s e;
  on_block = λ ctx b k s. (plain_laws ctx r0 0 b k s).2;
  on_return = return_law;
}
