-- ===== src/Specconv/Scenarios.antt =====
-- Concrete options, profiles, devices and namespaces of a spec.
use sysbox_runc.Prelude.{◌≡◌, refl, false, none, some, List, [], ◌∷◌, String, Result, ok, err, map}
use sysbox_runc.Prelude.Int.{pos}
use sysbox_runc.Syscont.Spec.{LinuxNamespace}
use sysbox_runc.Configs.Namespaces.{
  Namespaces, new_net, new_user, add, contains_ns, index, set_path,
}
use sysbox_runc.Configs.Namespaces.Laws.{IsUnique}
use sysbox_runc.Specconv.MountOptions.{bit, lookup, parse_mount_options}
use sysbox_runc.Specconv.MountOptions.Effect.{last_word, parse_mount_options_flag}
use sysbox_runc.Specconv.Seccomp.{
  LinuxProfile, Profile, allow, errno, setup_seccomp, convert_profile, setup_flags, convert_archs,
  convert_string_to_arch, convert_string_to_action, convert_calls, convert_names, convert_args,
}
use sysbox_runc.Specconv.Seccomp.Calls.{name_and_action, named_actions, setup_seccomp_calls}
use sysbox_runc.Specconv.Nodes.{SpecNode, Node, NodeError}
use sysbox_runc.Specconv.Spaces.{add_spec_namespaces, namespace_mapping}
use sysbox_runc.Specconv.Spaces.Unique.{AreNamed, add_spec_namespaces-AreNamed}

abbrev options : List String
options = "ro" ∷ "nosuid" ∷ "mode=755" ∷ "rw" ∷ "rprivate" ∷ []

-- `rw` comes after `ro`, so that bit 0 is clear.
parse_mount_options_flag_example : bit (parse_mount_options options).0 0 ≡ last_word 0 false options
parse_mount_options_flag_example = parse_mount_options_flag options 0

abbrev profile : LinuxProfile
profile = record {
  default_action = "SCMP_ACT_ERRNO";
  default_errno_ret = none;
  architectures = "SCMP_ARCH_X86_64" ∷ [];
  flags = none;
  listener_path = "";
  listener_metadata = "";
  syscalls =
      record {
        names = "mount" ∷ "umount2" ∷ [];
        action = "SCMP_ACT_ALLOW";
        errno_ret = none;
        args = [];
      }
      ∷ [];
}

abbrev converted : Profile
converted = record {
  default_action = errno;
  architectures = "amd64" ∷ [];
  flags = [];
  syscalls =
      record { name = "mount"; action = allow; errno_ret = none; args = [] }
      ∷ record { name = "umount2"; action = allow; errno_ret = none; args = [] }
      ∷ [];
  default_errno_ret = none;
  listener_path = "";
  listener_metadata = "";
}

setup_seccomp_calls_example :
    map name_and_action converted.syscalls ≡ named_actions profile.syscalls
unfolding setup_seccomp convert_profile setup_flags convert_archs convert_string_to_arch
    convert_string_to_action convert_calls convert_names convert_args lookup
setup_seccomp_calls_example = setup_seccomp_calls (λ f. false) profile converted refl

abbrev own_null : List SpecNode
own_null =
    record {
      path = "/dev/null";
      type = "c";
      major = pos 1;
      minor = pos 3;
      file_mode = none;
      uid = some 5;
      gid = none;
    }
    ∷ []

abbrev nodes_of : Result NodeError (List Node × List Node) → List Node × List Node
nodes_of (ok r) = r
nodes_of (err e) = ([], [])

abbrev spec_spaces : List LinuxNamespace
spec_spaces =
    record { type = "network"; path = "/run/netns/a" } ∷ record { type = "user"; path = "" } ∷ []

abbrev spaces : Namespaces
spaces =
    record { type = new_net; path = "/run/netns/a" } ∷ record { type = new_user; path = "" } ∷ []

add_spec_namespaces-AreNamed_example : AreNamed spec_spaces spaces × IsUnique spaces
unfolding add_spec_namespaces namespace_mapping lookup add contains_ns index set_path
add_spec_namespaces-AreNamed_example = add_spec_namespaces-AreNamed spec_spaces spaces refl
