-- ===== src/Configs/Namespaces/Laws.antt =====
-- The list of namespaces as a map from types to paths.
use sysbox_runc.Prelude.{
  ◌≡◌, true, false, not, ◌&&◌, ◌||◌, [], ◌∷◌, String, if◌then◌else◌, ◌==◌, string_eq, arith,
}
use sysbox_runc.Configs.Namespaces.{
  NamespaceType, Namespace, Namespaces, index, remove, add, contains_ns, path_of,
}

-- No namespace of the type.
abbrev pub Lacks : NamespaceType → Namespaces → Type 0
Lacks t n = contains_ns t n ≡ false

-- Each type stands once.
abbrev pub IsUnique : Namespaces → Type 0
IsUnique [] = Unit
IsUnique (ns ∷ n) = Lacks ns.type n × IsUnique n

pub contains_ns-cons :
    (t : NamespaceType) (ns : Namespace) (n : Namespaces)
    → contains_ns t (ns ∷ n) ≡ ((ns.type == t) || contains_ns t n)
unfolding contains_ns index
contains_ns-cons t ns n = ground arith

path_of-cons :
    (t : NamespaceType) (ns : Namespace) (n : Namespaces)
    → path_of t (ns ∷ n) ≡ (if ns.type == t then ns.path else path_of t n)
unfolding path_of index
path_of-cons t ns n = ground arith

add-cons :
    (t : NamespaceType) (path : String) (ns : Namespace) (n : Namespaces)
    → add t path (ns ∷ n)
      ≡ (if ns.type == t then record ns { path = path } ∷ n else ns ∷ add t path n)
unfolding add index
add-cons t path ns n = ground arith

remove-cons :
    (t : NamespaceType) (ns : Namespace) (n : Namespaces)
    → remove t (ns ∷ n)
      ≡ (if ns.type == t then (n, true) else (ns ∷ (remove t n).0, (remove t n).1))
unfolding remove index
remove-cons t ns n = ground arith

module _ (t u : NamespaceType) where
  -- `Add` makes the type present, with the new path, and leaves the presence and the path of every
  -- other type as they were.
  pub path_of-add :
      (path : String) (n : Namespaces)
      → (contains_ns u (add t path n) ≡ ((t == u) || contains_ns u n))
        × (path_of u (add t path n) ≡ (if t == u then path else path_of u n))
  path_of-add path [] = unfold contains_ns path_of add index in ground arith
  path_of-add path (ns ∷ n) = ground (
    arith,
    add-cons t path ns n,
    contains_ns-cons u ns n,
    path_of-cons u ns n,
    contains_ns-cons u (record ns { path = path }) n,
    path_of-cons u (record ns { path = path }) n,
    contains_ns-cons u ns (add t path n),
    path_of-cons u ns (add t path n),
    path_of-add path n,
    string_eq.beq_iff ns.type t,
    string_eq.beq_iff ns.type u,
    string_eq.beq_iff t u,
  )

  -- `Remove` from a list with one namespace of each type leaves none of the type and keeps the other
  -- types, and reports whether the type was there.
  pub contains_ns-remove :
      (n : Namespaces)
      → IsUnique n
      → (contains_ns u (remove t n).0 ≡ (not (t == u) && contains_ns u n))
        × ((remove t n).1 ≡ contains_ns t n)
  contains_ns-remove [] h = unfold contains_ns remove index in ground arith
  contains_ns-remove (ns ∷ n) h = ground (
    arith,
    remove-cons t ns n,
    contains_ns-cons u ns n,
    contains_ns-cons t ns n,
    contains_ns-cons u ns (remove t n).0,
    contains_ns-remove n h.1,
    string_eq.beq_iff ns.type t,
    string_eq.beq_iff ns.type u,
    string_eq.beq_iff t u,
  )
