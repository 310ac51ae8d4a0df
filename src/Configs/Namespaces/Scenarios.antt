-- ===== src/Configs/Namespaces/Scenarios.antt =====
-- A concrete list of namespaces.
use sysbox_runc.Prelude.{[], ◌∷◌}
use sysbox_runc.Configs.Namespaces.{Namespaces, new_pid, new_net}

abbrev pid_and_net : Namespaces
pid_and_net =
    record { type = new_pid; path = "" } ∷ record { type = new_net; path = "/run/net" } ∷ []
