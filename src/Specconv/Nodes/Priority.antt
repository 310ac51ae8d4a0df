-- ===== src/Specconv/Nodes/Priority.antt =====
-- A device of the spec takes the place of the default one.
use sysbox_runc.Prelude.{
  ◌≡◌, ◌∙◌, refl, ap, sym, arith, Bool, true, false, not, List, [], ◌∷◌, ◌++◌, String, ok, value_of,
  ok_inj, if◌then◌else◌, ◌==◌, string_eq, any, keep, map,
}
use mathlib.Core.List.{append-nil, append_assoc}
use sysbox_runc.Specconv.Nodes.{
  Node, SpecNode, allowed_devices, string_to_device_rune, spec_node, is_redundant, allow_defaults,
  merge_nodes, create_devices,
}

abbrev pub with_path : Node → Bool
with_path n = not (n.path == "")

abbrev pub free : List SpecNode → List Node → List Node
free spec ads = keep (λ ad. not (is_redundant spec ad)) ads

named_step :
    (unnamed : Bool) (ad : Node) (nodes named : List Node)
    → (if unnamed then nodes else nodes ++ ad ∷ []) ++ named
      ≡ nodes ++ (if not unnamed then ad ∷ named else named)
named_step true ad nodes named = refl
named_step false ad nodes named = append_assoc nodes (ad ∷ []) named

defaults_step :
    (redundant : Bool) (ad : Node) (nodes deduped rest : List Node)
    → ◌≡◌ {A = List Node × List Node}
        (if redundant then (nodes ++ keep with_path rest, deduped ++ rest) else (
          (if ad.path == "" then nodes else nodes ++ ad ∷ []) ++ keep with_path rest,
          (deduped ++ ad ∷ []) ++ rest,
        ))
        (
          nodes ++ keep with_path (if not redundant then ad ∷ rest else rest),
          deduped ++ (if not redundant then ad ∷ rest else rest),
        )
defaults_step true ad nodes deduped rest = refl
defaults_step false ad nodes deduped rest =
    ap (λ r. (r, (deduped ++ ad ∷ []) ++ rest))
      (named_step (ad.path == "") ad nodes (keep with_path rest))
    ∙ ap (λ r. (nodes ++ keep with_path (ad ∷ rest), r)) (append_assoc deduped (ad ∷ []) rest)

allow_defaults_lem :
    (spec : List SpecNode) (ads nodes deduped : List Node)
    → allow_defaults spec ads (nodes, deduped)
      ≡ (nodes ++ keep with_path (free spec ads), deduped ++ free spec ads)
unfolding allow_defaults
allow_defaults_lem spec [] nodes deduped =
    ap (λ xs. (xs, deduped)) (sym (append-nil nodes))
    ∙ ap (λ xs. (nodes ++ [], xs)) (sym (append-nil deduped))
allow_defaults_lem spec (ad ∷ ads) nodes deduped =
    rw
      (
        allow_defaults_lem spec ads nodes deduped,
        allow_defaults_lem spec ads (if ad.path == "" then nodes else nodes ++ ad ∷ [])
            (deduped ++ ad ∷ []),
      )
      (defaults_step (is_redundant spec ad) ad nodes deduped (free spec ads))

unfoldable pub paths : List Node → List String
paths nodes = map (λ (n : Node). n.path) nodes

paths-append : (xs ys : List Node) → paths (xs ++ ys) ≡ paths xs ++ paths ys
unfolding paths
paths-append [] ys = refl
paths-append (x ∷ xs) ys = ap (λ ps. x.path ∷ ps) (paths-append xs ys)

spec_node-path : (d : SpecNode) (node : Node) → spec_node d ≡ ok node → node.path ≡ d.path
unfolding spec_node
spec_node-path d node h =
    let found = value_of (string_to_device_rune d.type) _ node h in ground (arith, found.1.1)

merge_nodes_lem :
    (spec : List SpecNode) (nodes out : List Node)
    → merge_nodes spec nodes ≡ ok out
    → paths out ≡ paths nodes ++ map (λ (d : SpecNode). d.path) spec
unfolding merge_nodes paths
merge_nodes_lem [] nodes out h = ap paths (sym (ok_inj h)) ∙ sym (append-nil (paths nodes))
merge_nodes_lem (d ∷ ds) nodes out h =
    let node = value_of (spec_node d) _ out h in
    merge_nodes_lem ds (nodes ++ node.0 ∷ []) out node.1.1
    ∙ ap (λ ps. ps ++ map (λ (e : SpecNode). e.path) ds) (paths-append nodes (node.0 ∷ []))
    ∙ append_assoc (paths nodes) (node.0.path ∷ []) (map (λ (e : SpecNode). e.path) ds)
    ∙ ap (λ p. paths nodes ++ p ∷ map (λ (e : SpecNode). e.path) ds)
        (spec_node-path d node.0 node.1.0)

none_redundant :
    (spec : List SpecNode) (ads : List Node) → any (is_redundant spec) (free spec ads) ≡ false
none_redundant spec [] = refl
none_redundant spec (ad ∷ ads) = ground (arith, none_redundant spec ads)

-- If devices are created, the nodes are those there were, then the default devices with a path, then
-- those of the spec, in their order; the default devices that are allowed are all but those whose path
-- the spec has, which are none of them.
pub create_devices-paths :
    (spec : List SpecNode) (nodes merged deduped : List Node)
    → create_devices spec nodes ≡ ok (merged, deduped)
    → (paths merged
        ≡ (paths nodes ++ paths (keep with_path deduped)) ++ map (λ (d : SpecNode). d.path) spec)
      × (any (is_redundant spec) deduped ≡ false)
      × (deduped ≡ free spec allowed_devices)
unfolding create_devices
create_devices-paths spec nodes merged deduped h =
    let defaults = allow_defaults spec allowed_devices (nodes, []) in
    let all = value_of (merge_nodes spec defaults.0) _ (merged, deduped) h in
    let both = ok_inj all.1.1 in
    let parts = allow_defaults_lem spec allowed_devices nodes [] in
    let is_free = ap (λ p. p.1) (sym both) ∙ ap (λ p. p.1) parts in
    (
      ap (λ p. paths p.0) (sym both)
          ∙ merge_nodes_lem spec defaults.0 all.0 all.1.0
          ∙ ap (λ ps. ps ++ map (λ (d : SpecNode). d.path) spec)
              (ap (λ p. paths p.0) parts
                ∙ paths-append nodes (keep with_path (free spec allowed_devices))
                ∙ ap (λ ds. paths nodes ++ paths (keep with_path ds)) (sym is_free)),
      ap (λ ds. any (is_redundant spec) ds) is_free ∙ none_redundant spec allowed_devices,
      is_free,
    )
