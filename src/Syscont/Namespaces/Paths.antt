-- ===== src/Syscont/Namespaces/Paths.antt =====
-- Which namespaces a configured container has, and their paths.
use sysbox_runc.Prelude.{
  ◌≡◌, ◌∙◌, ap, refl, Bool, true, false, not, ◌&&◌, Option, none, some, List, [], ◌∷◌, ◌++◌, String,
  ok, if◌then◌else◌, ◌==◌, string_eq, contains, keep, contains-keep, arith,
}
use sysbox_runc.Syscont.Spec.{LinuxNamespace, Linux, Mgr}
use sysbox_runc.Syscont.Namespaces.{
  all_ns, ns_types, set_difference, new_namespaces, override_userns, overrides_userns,
  add_namespaces, cfg_namespaces,
}

-- The path of the first namespace of a type.
unfoldable pub find_path : String → List LinuxNamespace → Option String
find_path t [] = none
find_path t (ns ∷ namespaces) = if ns.type == t then some ns.path else find_path t namespaces

-- The path that a container should have, from the one given.
abbrev pub default_path : String → Option String → Option String
default_path t (some path) = some path
default_path t none = if contains all_ns t then some "" else none

abbrev is_given : Option String → Bool
is_given none = false
is_given (some _) = true

contains-ns_types :
    (t : String) (namespaces : List LinuxNamespace)
    → contains (ns_types namespaces) t ≡ is_given (find_path t namespaces)
unfolding ns_types find_path
contains-ns_types t [] = refl
contains-ns_types t (ns ∷ namespaces) = ground (arith, contains-ns_types t namespaces)

find_path-append :
    (t : String) (xs ys : List LinuxNamespace)
    → find_path t (xs ++ ys) ≡ (elim (find_path t xs) [ some p ↦ some p | none ↦ find_path t ys ])
unfolding find_path
find_path-append t [] ys = refl
find_path-append t (x ∷ xs) ys = ground (arith, find_path-append t xs ys)

find_path-new_namespaces :
    (t : String) (names : List String)
    → find_path t (new_namespaces names) ≡ (if contains names t then some "" else none)
unfolding find_path new_namespaces
find_path-new_namespaces t [] = refl
find_path-new_namespaces t (n ∷ names) = ground (arith, find_path-new_namespaces t names)

find_path-override_userns :
    (t userns : String) (namespaces : List LinuxNamespace)
    → find_path t (override_userns userns namespaces) ≡ (
        if (t == "user") && is_given (find_path t namespaces)
        then some userns
        else find_path t namespaces)
unfolding find_path override_userns
find_path-override_userns t userns [] = ground arith
find_path-override_userns t userns (ns ∷ namespaces) = ground (
  arith,
  find_path-override_userns t userns namespaces,
  string_eq.beq_iff t "user",
  string_eq.beq_iff ns.type "user",
  string_eq.beq_iff ns.type t,
)

-- The set package yields the names of a set, in some order.
module _ (iter : List String → List String)
    (iter_members : (names : List String) (t : String)
      → contains (iter names) t ≡ contains names t) where
  find_path-added :
      (t : String) (linux : Linux)
      → find_path t (
          linux.namespaces
          ++ new_namespaces (iter (set_difference all_ns (ns_types linux.namespaces))))
        ≡ default_path t (find_path t linux.namespaces)
  unfolding set_difference
  find_path-added t linux =
      let missing = keep (λ x. not (contains (ns_types linux.namespaces) x)) all_ns in
      ground (
        arith,
        find_path-append t linux.namespaces (new_namespaces (iter missing)),
        find_path-new_namespaces t (iter missing),
        iter_members missing t,
        contains-keep (λ x. not (contains (ns_types linux.namespaces) x)) all_ns t,
        contains-ns_types t linux.namespaces,
      )

  find_path-add_namespaces :
      (mgr : Mgr) (linux : Linux) (t : String)
      → find_path t (add_namespaces iter mgr linux).namespaces ≡ (
          if overrides_userns mgr && (t == "user")
          then some mgr.userns
          else default_path t (find_path t linux.namespaces))
  unfolding add_namespaces
  find_path-add_namespaces mgr linux t = ground (
    arith,
    find_path-added t linux,
    find_path-override_userns t mgr.userns (
        linux.namespaces
        ++ new_namespaces (iter (set_difference all_ns (ns_types linux.namespaces)))),
    string_eq.beq_iff t "user",
  )

  cfg_namespaces-inverse :
      (mgr : Mgr) (linux out : Linux)
      → cfg_namespaces iter mgr linux ≡ ok out
      → out ≡ add_namespaces iter mgr linux
  unfolding cfg_namespaces
  cfg_namespaces-inverse mgr linux out e = ground arith

  -- If the configuration succeeds, each namespace has the path that was given, an empty one if it
  -- was added, or none if its type is neither given nor one of the eight of a system container; the
  -- user namespace has the path of sysbox-mgr, if that sets one.
  pub find_path-cfg_namespaces :
      (mgr : Mgr) (linux out : Linux) (t : String)
      → cfg_namespaces iter mgr linux ≡ ok out
      → find_path t out.namespaces ≡ (
          if overrides_userns mgr && (t == "user")
          then some mgr.userns
          else default_path t (find_path t linux.namespaces))
  find_path-cfg_namespaces mgr linux out t e =
      ap (λ l. find_path t l.namespaces) (cfg_namespaces-inverse mgr linux out e)
      ∙ find_path-add_namespaces mgr linux t
