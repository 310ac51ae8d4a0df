-- ===== src/Configs/Validate/Run.antt =====
-- `Validate` of libcontainer/configs/validate/validator.go: all checks in their order.
use sysbox_runc.Prelude.{Option, none, if◌then◌else◌}
use sysbox_runc.Configs.Validate.{
  Config, Host, ValidateError, ◌then_check◌, rootfs, network, hostname, security, user_namespace,
  cgroup_namespace, time_namespace, check_sysctls, intel_rdt,
}
use sysbox_runc.Configs.Validate.Mounts.{rootless_euid}

unfoldable pub validate : Host → Config → Option ValidateError
validate host c =
    rootfs host c
    then_check network c
    then_check hostname c
    then_check security host c
    then_check user_namespace host c
    then_check cgroup_namespace host c
    then_check time_namespace host c
    then_check check_sysctls host c c.sysctl
    then_check intel_rdt host c
    then_check (if c.rootless_euid then rootless_euid c else none)
