-- ===== src/Devices/Filter/Verdict.antt =====
-- What the program decides: the last rule that shares an access with the request.
use Prim.Native.Nat.{bit_and}
use sysbox_runc.Prelude.{
  ℕ, suc, ◌≡◌, ◌∙◌, refl, ap, Bool, true, false, not, ◌&&◌, ◌||◌, Option, none, some, List, [], ◌∷◌,
  ◌++◌, reverse, Result, ok, err, if◌then◌else◌, ◌==◌, nat_eq,
}
use sysbox_runc.Devices.Device.{Rule}
use sysbox_runc.Devices.Filter.{
  r0, Instruction, mov_imm32, block, return, FilterError, Program, init_insts, Test, test_of_rule,
  has_access, block_of_test, is_wild_card, append_test, append_device, finalize, append_devices,
  device_filter, and_then,
}

-- A request: the type of the device, the accesses and the numbers.
pub record Request : Type 0 where
  pub type : ℕ
  pub access : ℕ
  pub major : ℕ
  pub minor : ℕ

abbrev pub equals : Option ℕ → ℕ → Bool
equals none v = true
equals (some n) v = v == n

-- Whether the request is for such a device and asks for one of the accesses.
unfoldable pub matches : Request → Test → Bool
matches q t =
    equals t.type q.type
    && (not (has_access t) || not (bit_and q.access t.access == 0))
    && equals t.major q.major
    && equals t.minor q.minor

-- The program for the rules, the last one first.
unfoldable pub compile : ℕ → List Rule → Result FilterError (List Instruction)
compile id [] = ok (block id ∷ mov_imm32 r0 0 ∷ return ∷ [])
compile id (dev ∷ devices) = and_then (test_of_rule dev) λ t.
    if is_wild_card t
    then ok (block_of_test id t)
    else and_then (compile (suc id) devices) λ rest. ok (block_of_test id t ++ rest)

pub append_assoc : (xs ys zs : List Instruction) → (xs ++ ys) ++ zs ≡ xs ++ (ys ++ zs)
append_assoc [] ys zs = refl
append_assoc (x ∷ xs) ys zs = ap (◌∷◌ x) (append_assoc xs ys zs)

-- After a wildcard rule nothing changes.
append_devices_wild :
    (devices : List Rule) (insts : List Instruction) (id : ℕ)
    → append_devices devices (record { insts = insts; has_wild_card = true; block_id = some id })
      ≡ ok (record { insts = insts; has_wild_card = true; block_id = some id })
unfolding append_devices append_device
append_devices_wild [] insts id = refl
append_devices_wild (dev ∷ devices) insts id = append_devices_wild devices insts id

finish : Result FilterError Program → Result FilterError (List Instruction)
finish r = and_then r λ p. ok (finalize p)

unfoldable pub prefix :
    List Instruction → Result FilterError (List Instruction) → Result FilterError (List Instruction)
prefix insts r = and_then r λ k. ok (insts ++ k)

append_devices-compile :
    (devices : List Rule) (insts : List Instruction) (id : ℕ)
    → finish (
        append_devices devices
          (record { insts = insts; has_wild_card = false; block_id = some id }))
      ≡ prefix insts (compile id devices)
unfolding append_devices append_device finish prefix compile finalize append_test
append_devices-compile [] insts id = refl
append_devices-compile (dev ∷ devices) insts id =
    go (λ t. append_devices-compile devices (insts ++ block_of_test id t) (suc id))
      (test_of_rule dev)
  where
    regroup :
        (t : Test) (r : Result FilterError (List Instruction))
        → prefix (insts ++ block_of_test id t) r
          ≡ prefix insts (and_then r λ rest. ok (block_of_test id t ++ rest))
    regroup t (ok rest) = ap ok (append_assoc insts (block_of_test id t) rest)
    regroup t (err e) = refl

    wild :
        (t : Test) (b : Bool)
        → finish (
            append_devices devices (record {
              insts = insts ++ block_of_test id t;
              has_wild_card = false;
              block_id = some (suc id);
            }))
          ≡ prefix (insts ++ block_of_test id t) (compile (suc id) devices)
        → finish (
            append_devices devices (record {
              insts = insts ++ block_of_test id t;
              has_wild_card = b;
              block_id = some (suc id);
            }))
          ≡ prefix insts (
              if b
              then ok (block_of_test id t)
              else and_then (compile (suc id) devices) λ rest. ok (block_of_test id t ++ rest))
    wild t true ih = ap finish (append_devices_wild devices (insts ++ block_of_test id t) (suc id))
    wild t false ih = ih ∙ regroup t (compile (suc id) devices)

    go :
        ((t : Test)
          → finish (
              append_devices devices (record {
                insts = insts ++ block_of_test id t;
                has_wild_card = false;
                block_id = some (suc id);
              }))
            ≡ prefix (insts ++ block_of_test id t) (compile (suc id) devices))
        → (r : Result FilterError Test)
        → finish (
            and_then
              (and_then r λ t. ok (
                append_test
                  (record { insts = insts; has_wild_card = false; block_id = some id })
                  id
                  t))
              (append_devices devices))
          ≡ prefix insts (
              and_then r λ t.
                if is_wild_card t
                then ok (block_of_test id t)
                else and_then (compile (suc id) devices) λ rest. ok (block_of_test id t ++ rest))
    go ih (ok t) = wild t (is_wild_card t) (ih t)
    go ih (err e) = refl

pub device_filter-compile :
    (devices : List Rule) → device_filter devices ≡ prefix init_insts (compile 0 (reverse devices))
unfolding device_filter finish prefix
device_filter-compile devices = append_devices-compile (reverse devices) init_insts 0
