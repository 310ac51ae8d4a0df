-- ===== src/Specconv/Nodes.antt =====
-- `AllowedDevices` and `createDevices` of libcontainer/specconv/spec_linux.go, for a spec with a
-- `linux` part (without one, the first loop panics).
pub mod Priority
use sysbox_runc.Prelude.{
  ℕ, Bool, true, false, not, ◌&&◌, ◌||◌, Option, none, some, List, [], ◌∷◌, ◌++◌, String, Result,
  ok, err, ◌>>=◌, if◌then◌else◌, ◌==◌, string_eq, any, keep,
}
use sysbox_runc.Prelude.Int.{ℤ, pos}
use sysbox_runc.Prelude.Text.{runes}
use sysbox_runc.Devices.Device.{DeviceType, Rule, wildcard, char_device, block_device, fifo_device}

-- `devices.Device`
pub record Node : Type 0 where
  pub rule : Rule
  pub path : String
  pub file_mode : ℕ
  pub uid : ℕ
  pub gid : ℕ

-- `specs.LinuxDevice`
pub record SpecNode : Type 0 where
  pub path : String
  pub type : String
  pub major : ℤ
  pub minor : ℤ
  pub file_mode : Option ℕ
  pub uid : Option ℕ
  pub gid : Option ℕ

pub data NodeError : Type 0 where
  invalid_type : String → NodeError

abbrev allowed : String → ℕ → DeviceType → ℤ → ℤ → String → Node
allowed path mode type major minor perms = record {
  rule = record {
    node = type;
    major = major;
    minor = minor;
    permissions = runes perms;
    allow = true;
  };
  path = path;
  file_mode = mode;
  uid = 0;
  gid = 0;
}

-- The mode 0666 is 438.
unfoldable pub allowed_devices : List Node
allowed_devices =
    allowed "" 0 char_device wildcard wildcard "m"
    ∷ allowed "" 0 block_device wildcard wildcard "m"
    ∷ allowed "/dev/null" 438 char_device (pos 1) (pos 3) "rwm"
    ∷ allowed "/dev/random" 438 char_device (pos 1) (pos 8) "rwm"
    ∷ allowed "/dev/full" 438 char_device (pos 1) (pos 7) "rwm"
    ∷ allowed "/dev/tty" 438 char_device (pos 5) (pos 0) "rwm"
    ∷ allowed "/dev/zero" 438 char_device (pos 1) (pos 5) "rwm"
    ∷ allowed "/dev/urandom" 438 char_device (pos 1) (pos 9) "rwm"
    ∷ allowed "" 0 char_device (pos 136) wildcard "rwm"
    ∷ allowed "" 0 char_device (pos 5) (pos 2) "rwm"
    ∷ allowed "" 0 char_device (pos 10) (pos 200) "rwm"
    ∷ []

unfoldable pub string_to_device_rune : String → Result NodeError DeviceType
string_to_device_rune s =
    if s == "p"
    then ok fifo_device
    else if (s == "u") || (s == "c")
    then ok char_device
    else if s == "b"
    then ok block_device
    else err (invalid_type s)

abbrev or_default : ℕ → Option ℕ → ℕ
or_default n none = n
or_default n (some m) = m

unfoldable pub spec_node : SpecNode → Result NodeError Node
spec_node d = do
  type ← string_to_device_rune d.type
  ok (record {
    rule = record {
      node = type;
      major = d.major;
      minor = d.minor;
      permissions = [];
      allow = false;
    };
    path = d.path;
    file_mode = or_default 438 d.file_mode;
    uid = or_default 0 d.uid;
    gid = or_default 0 d.gid;
  })

abbrev pub is_redundant : List SpecNode → Node → Bool
is_redundant spec ad = not (ad.path == "") && any (λ (sd : SpecNode). sd.path == ad.path) spec

-- The default devices that the spec leaves, and those of them with a path after the nodes.
unfoldable pub allow_defaults :
    List SpecNode → List Node → List Node × List Node → List Node × List Node
allow_defaults spec [] r = r
allow_defaults spec (ad ∷ ads) (nodes, deduped) =
    let added =
      allow_defaults spec ads
        (if ad.path == "" then nodes else nodes ++ ad ∷ [], deduped ++ ad ∷ []) in
    let skipped = allow_defaults spec ads (nodes, deduped) in
    if is_redundant spec ad then skipped else added

unfoldable pub merge_nodes : List SpecNode → List Node → Result NodeError (List Node)
merge_nodes [] nodes = ok nodes
merge_nodes (d ∷ ds) nodes = do node ← spec_node d; merge_nodes ds (nodes ++ node ∷ [])

-- The nodes of the configuration, and the devices that are allowed by default.
unfoldable pub create_devices : List SpecNode → List Node → Result NodeError (List Node × List Node)
create_devices spec nodes =
    let defaults = allow_defaults spec allowed_devices (nodes, []) in
    merge_nodes spec defaults.0 >>= (λ merged. ok (merged, defaults.1))
