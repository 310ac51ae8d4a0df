-- ===== src/Lib.antt =====
-- A verification library of sysbox-runc's core: device access control, the life of a container, the
-- conversion of a spec to that of a system container and to a configuration, the validation of the
-- configuration, the start of the init process, the seccomp filter, cgroup limits, and the user
-- database.
--
-- How the parts interact. The runtime converts the OCI spec for a system container
-- (libsysbox/syscont), turns the spec into a configuration (libcontainer/specconv) and validates it
-- (libcontainer/configs/validate), creates a container whose state machine (libcontainer/state_linux.go)
-- follows what the host shows, and hands its device rules to the cgroup v1 emulator
-- (libcontainer/cgroups/devices), which computes the rules to write to the kernel, or to the eBPF
-- filter of cgroup v2. It starts the init process and answers its messages over a pipe
-- (libcontainer/process_linux.go and sync.go); the init process sets up the container, loads the
-- filters and runs as the user that libcontainer/user finds.
--
-- Which file models which part:
--   Prelude and below it: Boolean tests, decidable equality, maps as association lists, results,
--     integers and decimal text over the native numbers.
--   Devices.Device: libcontainer/devices/device.go. `to_set`, `from_set`, `union`, `difference`,
--     `intersection`, `is_empty` and `is_valid` are the methods of `Permissions`.
--   Devices.Emulator: libcontainer/cgroups/devices/devices_emulator.go. `Emulator` is the struct,
--     `add_rule`, `rm_rule`, `allow`, `deny` and `apply` its methods; a method returns the new emulator
--     and its error. Devices.Transition: `Transition`, and `buildEmulator` of
--     libcontainer/cgroups/fs/devices.go as `apply_all`. Devices.Lines: `CgroupString`, `parseLine`
--     and `EmulatorFromList`.
--   Container.Session: a container with the calls of the host made so far. `Host` is the kernel, the
--     cgroup and RDT managers, the hooks, sysbox-mgr and sysbox-fs: each answer depends on all calls
--     before it, so the host may change at any time. Container.Status, Container.Transition and
--     Container.Destroy: libcontainer/state_linux.go and `runType`, `refreshState`, `currentStatus` of
--     libcontainer/container_linux.go. Container.Lifecycle: `Pause`, `Resume` and `Destroy` there.
--   Devices.Filter: libcontainer/cgroups/ebpf/devicefilter/devicefilter.go. `device_filter` builds the
--     program. The machine that runs it is a parameter, the record `Machine` of Devices.Filter.Machine,
--     whose fields are the documented effects of the instructions that the program uses; the
--     interpreter of Devices.Filter.Interpreter has them all.
--   Configs.Namespaces: libcontainer/configs/namespaces_linux.go. Configs.HostIds:
--     libcontainer/configs/config_linux.go and `setupUserNamespace` of
--     libcontainer/specconv/spec_linux.go. Configs.Validate: `validate` and its checks are the methods
--     of `ConfigValidator` in libcontainer/configs/validate/validator.go and rootless.go.
--   Specconv: libcontainer/specconv/spec_linux.go. `parse_mount_options`, `setup_seccomp` with
--     libcontainer/seccomp/config.go, `create_devices`, and `add_spec_namespaces`, the loop of
--     `CreateLibcontainerConfig` over the namespaces.
--   Cgroups: the conversions and parsers of libcontainer/cgroups/utils.go and fscommon/utils.go
--     (Cgroups.Convert, Cgroups.Params), `setMemory` and `setCpu` of libcontainer/cgroups/fs2
--     (Cgroups.Fs2), where a write may fail depending on those before it.
--   User: libcontainer/user/user.go. A reader is a list of lines, with whether reading them fails, or
--     nil.
--   Seccomp: libcontainer/seccomp/patchbpf/enosys_linux.go. `find_last_syscalls`,
--     `generate_enosys_stub` and `enosys_patch_filter` are the functions there; the two loops over a Go
--     map take the order of their entries as a parameter. libseccomp's answers are the record
--     `Libseccomp` of Seccomp.Arch, and the kernel's machine for the filter is the record `Machine` of
--     Seccomp.Bpf, with an interpreter in Seccomp.Bpf.Interpreter.
--   Start: Start.Parent is `initProcess.start` of libcontainer/process_linux.go (`start_init`) with
--     `parseSync` of libcontainer/sync.go and `handleReqOp` of libcontainer/container_linux.go. The
--     calls are the actions of Start.Calls, which the record `Host` answers from all calls before. The
--     messages of the child are a list, whose end is the closed pipe. Start.Child: `readSync`,
--     `writeSync` and the functions `syncParent...` of libcontainer/init_linux.go over what the parent
--     has written. Start.Init: `linuxStandardInit.Init` of libcontainer/standard_init_linux.go as
--     `init_container`, and `setupSyscallTraps`.
--   Syscont.Mounts: `cfgSyscontMounts`, `cfgSysboxfsMounts`, `cfgSystemdMounts` and
--     `sysMgrSetupMounts` of libsysbox/syscont/spec.go.
--   System.ProcStat: `parseStat` of libcontainer/system/proc.go.
--   Syscont.Process: the functions of libsysbox/syscont/spec.go on capabilities, masked and read-only
--     paths, the OOM score and the SYSBOX_* variables.
--   Syscont.Seccomp: `cfgSeccomp` of libsysbox/syscont/spec.go.
--   Syscont.IdMappings and Syscont.Namespaces: `allocIDMappings`, `validateIDMappings`,
--     `cfgIDMappings` and `cfgNamespaces` of libsysbox/syscont/spec.go, `sortIDMappings` and
--     `mergeIDMappings` of libsysbox/syscont/utils.go.
--
-- Bounds and fuel. A `uint32` of an ID mapping wraps at 2^32 in the code's sums. The destroy of a
-- loaded state looks up the real state and calls its destroy: the fuel is 1, as a refreshed state is
-- never a loaded one. The decimal text of a number takes one digit per unit of fuel, and the number
-- plus one is enough.
--
-- Not modelled: logging, locks, the texts of most errors; the kernel, sysbox-mgr, sysbox-fs and the
-- set package are parameters, and so are the functions on slices of the utils package, with their
-- documented laws. The calls of the kernel that mount, start processes and write files, the contents
-- of the messages but for requests and descriptors, the process that joins a container, the factory,
-- checkpoint and restore, Intel RDT and the load of the seccomp filter are left out. So is
-- `sortMounts`, whose second order is none in the sense of `sort`. A nil map of device rules is an
-- empty one. An unstable sort is an insertion sort.
-- Three panics are not modelled: an index of 0 into empty ID mappings in `registerWithSysboxfs` and in
-- `sysMgrSetupMounts`, which the conversion of the spec has filled by then, and a created container
-- without an init process in its destroy. The filter of the seccomp patch is a list of instructions, so
-- that the errors of its disassembly and assembly are left out.
mod Prelude
pub mod Cgroups
pub mod Configs
pub mod Container
pub mod Devices
pub mod Seccomp
pub mod Specconv
pub mod Syscont
pub mod Start
pub mod System
pub mod User
