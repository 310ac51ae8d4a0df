-- ===== src/Configs/Namespaces.antt =====
-- libcontainer/configs/namespaces_linux.go and namespaces_syscall.go's list of namespaces.
pub mod Laws
mod Scenarios
use sysbox_runc.Prelude.{
  ℕ, zero, suc, ◌≡◌, Bool, true, false, not, Option, none, some, List, [], ◌∷◌, ◌++◌, String,
  if◌then◌else◌, ◌==◌, string_eq, take, drop, get_elem?,
}

-- `type NamespaceType string`
abbrev pub NamespaceType : Type 0
NamespaceType = String

abbrev pub new_net : NamespaceType
new_net = "NEWNET"

abbrev pub new_pid : NamespaceType
new_pid = "NEWPID"

abbrev pub new_ns : NamespaceType
new_ns = "NEWNS"

abbrev pub new_uts : NamespaceType
new_uts = "NEWUTS"

abbrev pub new_ipc : NamespaceType
new_ipc = "NEWIPC"

abbrev pub new_user : NamespaceType
new_user = "NEWUSER"

abbrev pub new_cgroup : NamespaceType
new_cgroup = "NEWCGROUP"

abbrev pub new_time : NamespaceType
new_time = "NEWTIME"

unfoldable pub ns_name : NamespaceType → String
ns_name ns =
    if ns == new_net
    then "net"
    else if ns == new_ns
    then "mnt"
    else if ns == new_pid
    then "pid"
    else if ns == new_ipc
    then "ipc"
    else if ns == new_user
    then "user"
    else if ns == new_uts
    then "uts"
    else if ns == new_cgroup
    then "cgroup"
    else if ns == new_time
    then "time"
    else ""

unfoldable pub namespace_types : List NamespaceType
namespace_types =
    new_user ∷ new_ipc ∷ new_uts ∷ new_net ∷ new_pid ∷ new_ns ∷ new_cgroup ∷ new_time ∷ []

-- `Type`, `Path`
pub record Namespace : Type 0 where
  pub type : NamespaceType
  pub path : String

abbrev pub Namespaces : Type 0
Namespaces = List Namespace

abbrev next_index : Option ℕ → Option ℕ
next_index none = none
next_index (some i) = some (suc i)

-- The position of the first namespace of a type; `none` is -1.
unfoldable pub index : NamespaceType → Namespaces → Option ℕ
index t [] = none
index t (ns ∷ n) = if ns.type == t then some 0 else next_index (index t n)

-- The list, and whether a namespace was removed.
unfoldable pub remove : NamespaceType → Namespaces → Namespaces × Bool
remove t n = elim (index t n) [ none ↦ (n, false) | some i ↦ (take i n ++ drop (suc i) n, true) ]

-- `(*n)[i].Path = path`
unfoldable pub set_path : ℕ → String → Namespaces → Namespaces
set_path i path [] = []
set_path zero path (ns ∷ n) = record ns { path = path } ∷ n
set_path (suc i) path (ns ∷ n) = ns ∷ set_path i path n

unfoldable pub add : NamespaceType → String → Namespaces → Namespaces
unfolding set_path
add t path n = elim (index t n) [
  | none ↦ n ++ record { type = t; path = path } ∷ []
  | some i ↦ set_path i path n
]

unfoldable pub contains_ns : NamespaceType → Namespaces → Bool
contains_ns t n = elim (index t n) [ none ↦ false | some _ ↦ true ]

abbrev path_at : Option Namespace → String
path_at none = ""
path_at (some ns) = ns.path

unfoldable pub path_of : NamespaceType → Namespaces → String
path_of t n = elim (index t n) [ none ↦ "" | some i ↦ path_at (get_elem? n i) ]
