-- ===== src/Devices/Filter/Run.antt =====
-- A run of the program on the machine.
use Prim.Native.Nat.{bit_and}
use sysbox_runc.Prelude.{
  ℕ, suc, ◌≡◌, ◌∙◌, refl, ap, ◌^◌, ◌<◌, arith, Bool, not, ◌||◌, Option, none, some, List, ◌∷◌, ◌++◌,
  if◌then◌else◌, ◌==◌, nat_eq, Bool-cases, inl, inr,
}
use sysbox_runc.Devices.Filter.{
  Register, r0, r1, r2, r3, r4, r5, Instruction, and_imm32, jeq_imm, block, return, Test,
  has_access, check_equal, check_access, accept_block, block_of_test,
}
use sysbox_runc.Devices.Filter.Machine.{Context, Registers, store, after_block, Machine}
use sysbox_runc.Devices.Filter.Verdict.{Request, equals, matches, append_assoc}

-- The registers hold the request.
pub record Loaded (q : Request) (s : Registers) : Type 0 where
  pub in_r2 : s r2 ≡ some q.type
  pub in_r3 : s r3 ≡ some q.access
  pub in_r4 : s r4 ≡ some q.major
  pub in_r5 : s r5 ≡ some q.minor

-- Numbers below 2^31, as the immediate of a jump.
abbrev pub Fits : Option ℕ → Type 0
Fits none = Unit
Fits (some n) = n < 2 ^ 31

after_block-check_equal :
    (b next : ℕ) (reg : Register) (o : Option ℕ) (k : List Instruction)
    → after_block b (check_equal reg next o ++ k) ≡ after_block b k
unfolding after_block check_equal
after_block-check_equal b next reg none k = refl
after_block-check_equal b next reg (some n) k = refl

after_block-check_access :
    (b next : ℕ) (t : Test) (k : List Instruction)
    → after_block b (check_access next t ++ k) ≡ after_block b k
unfolding after_block check_access
after_block-check_access b next t k = ground arith

pub block_of_test-append :
    (id : ℕ) (t : Test) (k : List Instruction)
    → block_of_test id t ++ k
      ≡ block id
        ∷ (check_equal r2 (suc id) t.type
            ++ (check_access (suc id) t
                ++ (check_equal r4 (suc id) t.major
                    ++ (check_equal r5 (suc id) t.minor ++ (accept_block t.allow ++ k)))))
unfolding block_of_test
block_of_test-append id t k = ap (◌∷◌ (block id)) (
    append_assoc (check_equal r2 (suc id) t.type) _ k
    ∙ ap (λ x. check_equal r2 (suc id) t.type ++ x)
        (append_assoc (check_access (suc id) t) _ k
          ∙ ap (λ x. check_access (suc id) t ++ x)
              (append_assoc (check_equal r4 (suc id) t.major) _ k
                ∙ ap (λ x. check_equal r4 (suc id) t.major ++ x)
                    (append_assoc (check_equal r5 (suc id) t.minor) (accept_block t.allow) k))))

module _ (machine : Machine) (ctx : Context) where
  exec-check_equal :
      (reg : Register) (next : ℕ) (o : Option ℕ) (v : ℕ) (k : List Instruction) (s : Registers)
      → s reg ≡ some v
      → Fits o
      → machine.exec ctx (check_equal reg next o ++ k) s
        ≡ (if equals o v then machine.exec ctx k s else machine.exec ctx (after_block next k) s)
  unfolding check_equal
  exec-check_equal reg next none v k s e f = refl
  exec-check_equal reg next (some n) v k s e f = machine.on_jne ctx reg n next v k s e f

  exec-check_access :
      (q : Request) (next : ℕ) (t : Test) (k : List Instruction) (s : Registers)
      → Loaded q s
      → q.access < 2 ^ 32
      → (s' : Registers) × Loaded q s'
        × (machine.exec ctx (check_access next t ++ k) s ≡ (
            if not (has_access t) || not (bit_and q.access t.access == 0)
            then machine.exec ctx k s'
            else machine.exec ctx (after_block next k) s'))
  unfolding check_access
  exec-check_access q next t k s l small = elim (Bool-cases (has_access t)) [
    | inl partial ↦
        let moved = store r1 q.access s in
        let masked = store r1 (bit_and q.access t.access) moved in
        let a =
          machine.on_mov_reg ctx r1 r3 q.access (and_imm32 r1 t.access ∷ jeq_imm r1 0 next ∷ k) s
            l.in_r3 small in
        let b = machine.on_and ctx r1 t.access q.access (jeq_imm r1 0 next ∷ k) moved refl in
        let c =
          machine.on_jeq ctx r1 0 next (bit_and q.access t.access) k masked refl (omega arith) in
        (
          masked,
          record { in_r2 = l.in_r2; in_r3 = l.in_r3; in_r4 = l.in_r4; in_r5 = l.in_r5 },
          ground (arith, a, b, c),
        )
    | inr whole ↦ (s, l, ground arith)
  ]

  pub exec-accept_block :
      (accept : Bool) (k : List Instruction) (s : Registers)
      → machine.exec ctx (accept_block accept ++ k) s ≡ some (if accept then 1 else 0)
  exec-accept_block accept k s =
      machine.on_mov_imm ctx r0 (if accept then 1 else 0) (return ∷ k) s (ground arith)
      ∙ machine.on_return ctx (if accept then 1 else 0) k (store r0 (if accept then 1 else 0) s)
          refl

  -- A block decides the request, or goes on behind its end.
  pub exec-block :
      (q : Request) (id : ℕ) (t : Test) (k : List Instruction) (s : Registers)
      → Loaded q s
      → q.access < 2 ^ 32
      → Fits t.type
      → Fits t.major
      → Fits t.minor
      → (s' : Registers) × Loaded q s'
        × (machine.exec ctx (block_of_test id t ++ k) s ≡ (
            if matches q t
            then some (if t.allow then 1 else 0)
            else machine.exec ctx (after_block (suc id) k) s'))
  unfolding matches
  exec-block q id t k s l small ft fmaj fmin =
      let next = suc id in
      let k5 = accept_block t.allow ++ k in
      let k4 = check_equal r5 next t.minor ++ k5 in
      let k3 = check_equal r4 next t.major ++ k4 in
      let k2 = check_access next t ++ k3 in
      let k1 = check_equal r2 next t.type ++ k2 in
      let (s', l', masked) = exec-check_access q next t k3 s l small in
      let whole : machine.exec ctx (block_of_test id t ++ k) s ≡ machine.exec ctx k1 s =
        ap (λ p. machine.exec ctx p s) (block_of_test-append id t k)
        ∙ machine.on_block ctx id k1 s in
      let first = exec-check_equal r2 next t.type q.type k2 s l.in_r2 ft in
      let third = exec-check_equal r4 next t.major q.major k4 s' l'.in_r4 fmaj in
      let fourth = exec-check_equal r5 next t.minor q.minor k5 s' l'.in_r5 fmin in
      let last = exec-accept_block t.allow k s' in
      let skip5 : after_block next k5 ≡ after_block next k = unfold after_block in refl in
      let skip4 : after_block next k4 ≡ after_block next k =
        after_block-check_equal next next r5 t.minor k5 ∙ skip5 in
      let skip3 : after_block next k3 ≡ after_block next k =
        after_block-check_equal next next r4 t.major k4 ∙ skip4 in
      let skip2 : after_block next k2 ≡ after_block next k =
        after_block-check_access next next t k3 ∙ skip3 in
      elim (Bool-cases (equals t.type q.type)) [
        | inl typed ↦
            (s', l', ground (arith, whole, first, masked, third, fourth, last, skip5, skip4, skip3))
        | inr other ↦ (s, l, ground (arith, whole, first, skip2))
      ]
