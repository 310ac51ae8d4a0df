-- ===== src/Syscont/Process/Access.antt =====
-- What the process of a system container may see and set.
use sysbox_runc.Prelude.{
  ◌≡◌, ap, refl, arith, not, ◌&&◌, List, [], ◌∷◌, String, if◌then◌else◌, string_eq, contains, keep,
  contains-keep,
}
use sysbox_runc.Syscont.Process.{
  Process, systemd_init, cfg_paths, is_container_env_var, remove_sysbox_env_vars_for_exec,
}

-- What `StringSliceRemove` promises: the members of the first list that are not in the second.
module _ (slice_remove : List String → List String → List String)
    (removes : (xs ys : List String) (t : String)
      → contains (slice_remove xs ys) t ≡ (contains xs t && not (contains ys t)))
    (systemd_paths exposed_paths : List String) where
  -- A masked or read-only path stays so unless a system container exposes it, or one with systemd
  -- does and the process is systemd.
  pub contains-cfg_paths :
      (p : Process) (paths : List String) (t : String)
      → contains (cfg_paths slice_remove systemd_paths exposed_paths p paths) t ≡ (
          contains paths t
          && not (contains exposed_paths t)
          && not (systemd_init p && contains systemd_paths t))
  unfolding cfg_paths
  contains-cfg_paths p paths t = ground (
    arith,
    removes (if systemd_init p then slice_remove paths systemd_paths else paths) exposed_paths t,
    removes paths systemd_paths t,
  )

-- The environment of a process that is executed keeps exactly the variables that are not settings of
-- the whole container, and removing them again changes nothing.
pub remove_sysbox_env_vars_for_exec_lem :
    (p : Process) (v : String)
    → (contains (remove_sysbox_env_vars_for_exec p).env v
        ≡ (contains p.env v && not (is_container_env_var v)))
      × (remove_sysbox_env_vars_for_exec (remove_sysbox_env_vars_for_exec p)
          ≡ remove_sysbox_env_vars_for_exec p)
unfolding remove_sysbox_env_vars_for_exec
remove_sysbox_env_vars_for_exec_lem p v = (
  contains-keep (λ x. not (is_container_env_var x)) p.env v,
  ap (λ env. record p { env = env }) (keep_twice p.env),
)
  where
    keep_twice :
        (env : List String)
        → keep (λ x. not (is_container_env_var x)) (keep (λ x. not (is_container_env_var x)) env)
          ≡ keep (λ x. not (is_container_env_var x)) env
    keep_twice [] = refl
    keep_twice (x ∷ env) = ground (arith, keep_twice env)
