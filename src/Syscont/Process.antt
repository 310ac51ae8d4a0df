-- ===== src/Syscont/Process.antt =====
-- The process of a system container: `cfgCapabilities`, `cfgMaskedPaths`, `cfgReadonlyPaths`,
-- `cfgOomScoreAdj`, `systemdInit`, `removeSysboxEnvVarsForExec` and `getSysboxBoolEnvVarConfigs` of
-- libsysbox/syscont/spec.go.
-- The package's lists of paths are parameters: what is shown holds for any lists.
-- `StringSliceRemove` of the third-party utils package drops the members of the second list from the
-- first, which is documented there; it is a parameter.
pub mod Access
use text.Mathlib.Text.{starts_with}
use sysbox_runc.Prelude.{
  ℕ, ◌≡◌, ◌⊎◌, inl, inr, refl, arith, Bool, true, false, not, ◌&&◌, ◌||◌, Option, none, some, List,
  [], ◌∷◌, String, Result, ok, err, if◌then◌else◌, ◌==◌, nat_eq, string_eq, contains, keep,
  contains-keep, ltb,
}
use sysbox_runc.Prelude.Int.{ℤ, pos, negsuc, ltb_ℤ}

-- `specs.LinuxCapabilities`
pub record Capabilities : Type 0 where
  pub bounding : List String
  pub effective : List String
  pub inheritable : List String
  pub permitted : List String
  pub ambient : List String

-- `specs.Process`, as far as it is read.
pub record Process : Type 0 where
  pub args : List String
  pub env : List String
  pub uid : ℕ
  pub capabilities : Capabilities
  pub oom_score_adj : Option ℤ

-- With no argument the code panics; the caller has one.
unfoldable pub systemd_init : Process → Bool
systemd_init p = elim p.args [ [] ↦ false | arg ∷ _ ↦ arg == "/sbin/init" ]

-- The capabilities of sysbox-runc itself, or why they cannot be read, are the argument.
unfoldable pub cfg_capabilities : Result String (List String) → Process → Result String Process
cfg_capabilities (err e) p = err e
cfg_capabilities (ok caps) p =
    if p.uid == 0
    then ok (record p {
      capabilities = record {
        bounding = caps;
        effective = caps;
        inheritable = caps;
        permitted = caps;
        ambient = caps;
      };
    })
    else ok (record p {
      capabilities = record {
        bounding = caps;
        effective = [];
        inheritable = [];
        permitted = [];
        ambient = [];
      };
    })

unfoldable pub cfg_oom_score_adj : Process → Process
cfg_oom_score_adj p = elim p.oom_score_adj [
  | none ↦ p
  | some score ↦
      if ltb_ℤ score (negsuc 998) then record p { oom_score_adj = some (negsuc 998) } else p
]

unfoldable pub syscont_rw_paths : List String
syscont_rw_paths = "/proc" ∷ "/proc/sys" ∷ []

unfoldable pub syscont_systemd_rw_paths : List String
syscont_systemd_rw_paths = "/run" ∷ "/run/lock" ∷ "/tmp" ∷ "/sys/kernel" ∷ []

module _ (slice_remove : List String → List String → List String)
    (systemd_paths exposed_paths : List String) where
  -- `cfgMaskedPaths` and `cfgReadonlyPaths`, which differ in the lists.
  unfoldable pub cfg_paths : Process → List String → List String
  unfolding systemd_init
  cfg_paths p paths =
      slice_remove (if systemd_init p then slice_remove paths systemd_paths else paths)
        exposed_paths

unfoldable pub is_container_env_var : String → Bool
is_container_env_var env_var =
    starts_with env_var "SYSBOX_IGNORE_SYSFS_CHOWN="
    || starts_with env_var "SYSBOX_ALLOW_TRUSTED_XATTR="
    || starts_with env_var "SYSBOX_SYSCONT_MODE="
    || starts_with env_var "SYSBOX_SKIP_UID_SHIFT="

unfoldable pub remove_sysbox_env_vars_for_exec : Process → Process
remove_sysbox_env_vars_for_exec p = record p {
  env = keep (λ v. not (is_container_env_var v)) p.env;
}

-- The settings of sysbox-mgr that an environment variable sets.
pub record EnvConfig : Type 0 where
  pub ignore_sysfs_chown : Bool
  pub allow_trusted_xattr : Bool
  pub honor_caps : Bool
  pub syscont_mode : Bool

unfoldable pub set_env_flag : String → Bool → EnvConfig → EnvConfig
set_env_flag ev_name value config =
    if ev_name == "SYSBOX_IGNORE_SYSFS_CHOWN"
    then record config { ignore_sysfs_chown = value }
    else if ev_name == "SYSBOX_ALLOW_TRUSTED_XATTR"
    then record config { allow_trusted_xattr = value }
    else if ev_name == "SYSBOX_HONOR_CAPS"
    then record config { honor_caps = value }
    else if ev_name == "SYSBOX_SYSCONT_MODE"
    then record config { syscont_mode = value }
    else config

-- The error holds the name and the value.
unfoldable pub bool_env_var_configs :
    EnvConfig → String → String → Result (String × String) EnvConfig
bool_env_var_configs config ev_name ev_val =
    if not (ev_val == "TRUE") && not (ev_val == "FALSE")
    then err (ev_name, ev_val)
    else ok (set_env_flag ev_name (ev_val == "TRUE") config)
