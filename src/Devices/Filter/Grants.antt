-- ===== src/Devices/Filter/Grants.antt =====
-- What the test of the access in the device filter lets through.
use sysbox_runc.Prelude.{ℕ, ◌+◌, ◌*◌, ◌^◌, true, List, [], ◌∷◌, nat_eq}
use sysbox_runc.Prelude.Int.{pos}
use sysbox_runc.Devices.Device.{Rule, char_device}
use sysbox_runc.Devices.Filter.Machine.{Context, Machine}

-- A rule at the end of the list, which allows reading of one character device.
abbrev pub read_rule : ℕ → ℕ → Rule
read_rule major minor = record {
  node = char_device;
  major = pos major;
  minor = pos minor;
  permissions = b'r' ∷ [];
  allow = true;
}

-- A request for reading and writing of a character device.
abbrev pub read_and_write : ℕ → ℕ → Context
read_and_write major minor = record { access_type = 6 * 2 ^ 16 + 2; major = major; minor = minor }
