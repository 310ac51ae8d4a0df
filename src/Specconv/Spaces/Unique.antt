-- ===== src/Specconv/Spaces/Unique.antt =====
-- Every namespace of the spec is in the configuration once.
use sysbox_runc.Prelude.{
  ◌≡◌, ◌∙◌, refl, ap, sym, subst, Bool-cases, inl, inr, arith, ◌||◌, Option, none, some, List, [],
  ◌∷◌, ◌++◌, String, ok, err, ok_inj, if◌then◌else◌, ◌==◌, string_eq,
}
use mathlib.Core.List.{append-nil, append_assoc}
use sysbox_runc.Specconv.MountOptions.{lookup}
use sysbox_runc.Syscont.Spec.{LinuxNamespace}
use sysbox_runc.Configs.Namespaces.{NamespaceType, Namespace, Namespaces, index, add, contains_ns}
use sysbox_runc.Configs.Namespaces.Laws.{Lacks, IsUnique, contains_ns-cons}
use sysbox_runc.Specconv.Spaces.{
  unknown_type, duplicated_type, namespace_mapping, add_spec_namespaces,
}

-- The configuration's namespace for one of the spec's.
pub data IsNamed (ns : LinuxNamespace) (out : Namespace) : Type 0 where
  named : lookup namespace_mapping ns.type ≡ some out.type → out.path ≡ ns.path → IsNamed ns out

pub data AreNamed : List LinuxNamespace → Namespaces → Type 0 where
  no_more : AreNamed [] []
  one_more :
      {ns : LinuxNamespace} {out : Namespace} {spec : List LinuxNamespace} {outs : Namespaces}
      → IsNamed ns out
      → AreNamed spec outs
      → AreNamed (ns ∷ spec) (out ∷ outs)

add-Lacks :
    (t : NamespaceType) (path : String) (n : Namespaces)
    → Lacks t n
    → add t path n ≡ n ++ record { type = t; path = path } ∷ []
unfolding add contains_ns
add-Lacks t path n h = ground arith

contains-snoc :
    (u t : NamespaceType) (path : String) (n : Namespaces)
    → contains_ns u (n ++ record { type = t; path = path } ∷ []) ≡ (contains_ns u n || (t == u))
unfolding contains_ns index
contains-snoc u t path [] = ground arith
contains-snoc u t path (ns ∷ n) = ground (arith, contains-snoc u t path n)

-- A type that is new keeps the types unique.
snoc-IsUnique :
    (t : NamespaceType) (path : String) (n : Namespaces)
    → Lacks t n
    → IsUnique n
    → IsUnique (n ++ record { type = t; path = path } ∷ [])
snoc-IsUnique t path [] lacks unique = (unfold contains_ns index in refl, tt)
snoc-IsUnique t path (ns ∷ n) lacks unique = (
  ground (
    arith,
    contains-snoc ns.type t path n,
    contains_ns-cons t ns n,
    unique.0,
    string_eq.beq_iff ns.type t,
    string_eq.beq_iff t ns.type,
  ),
  snoc-IsUnique t path n (ground (arith, contains_ns-cons t ns n)) unique.1,
)

-- The loop, from a list of namespaces whose types are unique.
abbrev Outcome : List LinuxNamespace → Namespaces → Namespaces → Type 0
Outcome spec n out = (outs : Namespaces) × ((out ≡ n ++ outs) × (AreNamed spec outs × IsUnique out))

add_spec_namespaces_lem :
    (spec : List LinuxNamespace) (n out : Namespaces)
    → IsUnique n
    → add_spec_namespaces spec n ≡ ok out
    → Outcome spec n out
unfolding add_spec_namespaces
add_spec_namespaces_lem [] n out unique h =
    ([], (sym (ok_inj h) ∙ sym (append-nil n), (no_more, subst IsUnique (ok_inj h) unique)))
add_spec_namespaces_lem (ns ∷ spec) n out unique h =
    found (lookup namespace_mapping ns.type) refl h (λ t lacks.
      add_spec_namespaces_lem spec (add t ns.path n) out (
        subst IsUnique (sym (add-Lacks t ns.path n lacks))
          (snoc-IsUnique t ns.path n lacks unique)))
  where
    found :
        (type : Option NamespaceType)
        → lookup namespace_mapping ns.type ≡ type
        → elim type [
          | none ↦ err (unknown_type ns.type)
          | some t ↦
              if contains_ns t n
              then err (duplicated_type ns.type)
              else add_spec_namespaces spec (add t ns.path n)
        ]
          ≡ ok out
        → ((t : NamespaceType)
            → Lacks t n
            → add_spec_namespaces spec (add t ns.path n) ≡ ok out
            → Outcome spec (add t ns.path n) out)
        → Outcome (ns ∷ spec) n out
    found none is_type chosen go = ground arith
    found (some t) is_type chosen go = elim (Bool-cases (contains_ns t n)) [
      | inl there ↦ ground arith
      | inr lacks ↦
          let later = go t lacks (ground arith) in
          (
            record { type = t; path = ns.path } ∷ later.0,
            (
              later.1.0
                  ∙ ap (λ m. m ++ later.0) (add-Lacks t ns.path n lacks)
                  ∙ append_assoc n (record { type = t; path = ns.path } ∷ []) later.0,
              (one_more (named is_type refl) later.1.1.0, later.1.1.1),
            ),
          )
    ]

-- If the namespaces of a spec are accepted, the configuration has exactly them, in their order, with
-- their paths and the types that their names stand for, and no type twice.
pub add_spec_namespaces-AreNamed :
    (spec : List LinuxNamespace) (out : Namespaces)
    → add_spec_namespaces spec [] ≡ ok out
    → AreNamed spec out × IsUnique out
add_spec_namespaces-AreNamed spec out h =
    let all = add_spec_namespaces_lem spec [] out tt h in
    (subst (AreNamed spec) (sym all.1.0) all.1.1.0, all.1.1.1)
