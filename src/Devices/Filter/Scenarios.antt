-- ===== src/Devices/Filter/Scenarios.antt =====
-- Concrete programs, run by an interpreter of their instructions.
use sysbox_runc.Prelude.{◌+◌, ◌*◌, ◌^◌, true, List, [], ◌∷◌, ok, Result, err}
use sysbox_runc.Prelude.Int.{pos}
use sysbox_runc.Devices.Device.{Rule, char_device}
use sysbox_runc.Devices.Filter.{Instruction, FilterError}
use sysbox_runc.Devices.Filter.Machine.{Context}

abbrev no_rules : List Rule
no_rules = []

-- The instructions that a list of rules is turned into.
abbrev program : Result FilterError (List Instruction) → List Instruction
program (ok insts) = insts
program (err e) = []

-- `/dev/null` may be read and written.
abbrev null_rule : Rule
null_rule = record {
  node = char_device;
  major = pos 1;
  minor = pos 3;
  permissions = b'r' ∷ b'w' ∷ [];
  allow = true;
}

-- A request to read it: the type is 2 and the access 2.
abbrev read_null : Context
read_null = record { access_type = 2 + 2 * 2 ^ 16; major = 1; minor = 3 }
