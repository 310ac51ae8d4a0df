-- ===== src/Devices/Filter/Decision.antt =====
-- The decision of the whole program.
use Prim.Native.Nat.{bit_and}
use sysbox_runc.Prelude.{
  ℕ, ◌/◌, ◌^◌, ◌<◌, Bool, false, List, [], ◌∷◌, ok, err, if◌then◌else◌, nat_eq,
}
use sysbox_runc.Prelude.Int.{ℤ, pos, negsuc}
use sysbox_runc.Devices.Device.{Rule}
use sysbox_runc.Devices.Filter.{r2, r3, r4, r5, test_of_rule}
use sysbox_runc.Devices.Filter.Machine.{Context, Registers, store, start, Machine}
use sysbox_runc.Devices.Filter.Verdict.{Request, matches}

-- The numbers of a rule are below 2^31, or wildcards.
abbrev pub IsSmall : ℤ → Type 0
IsSmall (pos n) = n < 2 ^ 31
IsSmall (negsuc n) = Unit

pub record IsSmallRule (dev : Rule) : Type 0 where
  pub small_major : IsSmall dev.major
  pub small_minor : IsSmall dev.minor

-- The decision by the first of the rules that matches, deny if none does.
unfoldable pub decide : Request → List Rule → Bool
decide q [] = false
decide q (dev ∷ devices) = elim (test_of_rule dev) [
  | err _ ↦ false
  | ok t ↦ if matches q t then t.allow else decide q devices
]

-- What the program reads of the context.
abbrev pub request_of : Context → Request
request_of ctx = record {
  type = bit_and ctx.access_type 0xffff;
  access = ctx.access_type / 2 ^ 16;
  major = ctx.major;
  minor = ctx.minor;
}

abbrev pub as_number : Bool → ℕ
as_number b = if b then 1 else 0

module _ (machine : Machine) (ctx : Context) where
  -- The registers once the context is read.
  abbrev read2 : Registers
  read2 = store r2 (bit_and ctx.access_type 0xffff) (store r2 ctx.access_type start)

  abbrev read3 : Registers
  read3 = store r3 (ctx.access_type / 2 ^ 16) (store r3 ctx.access_type read2)

  abbrev read5 : Registers
  read5 = store r5 ctx.minor (store r4 ctx.major read3)
