-- ===== src/Syscont/IdMappings/Merge.antt =====
-- The mapping of IDs before and after a merge.
use sysbox_runc.Prelude.{
  ℕ, ◌≡◌, ◌∙◌, refl, ap, ◌+◌, ◌^◌, ◌<◌, Bool, false, ◌&&◌, ◌||◌, List, [], ◌∷◌, ok, ltb, leb, ◌==◌,
  nat_eq, arith, All, Bool-cases, inl, inr,
}
use sysbox_runc.Syscont.Spec.{LinuxIdMapping}
use sysbox_runc.Syscont.IdMappings.{
  mapping_less, insert_mapping, sort_id_mappings, merge_from, merge_sorted, merge_id_mappings, u32,
}

-- Whether a mapping takes a container ID to a host ID.
unfoldable pub covers : ℕ → ℕ → LinuxIdMapping → Bool
covers c h m =
    leb m.container_id c && ltb c (m.container_id + m.size) && (h + m.container_id == m.host_id + c)

unfoldable pub maps_to : ℕ → ℕ → List LinuxIdMapping → Bool
maps_to c h [] = false
maps_to c h (m ∷ mappings) = covers c h m || maps_to c h mappings

-- The ranges end below 2^32, so that no sum of them wraps.
pub record Fits (m : LinuxIdMapping) : Type 0 where
  pub container_fits : m.container_id + m.size < 2 ^ 32
  pub host_fits : m.host_id + m.size < 2 ^ 32

maps_to-insert_mapping :
    (c h : ℕ) (by : Bool) (x : LinuxIdMapping) (ys : List LinuxIdMapping)
    → maps_to c h (insert_mapping by x ys) ≡ maps_to c h (x ∷ ys)
unfolding maps_to insert_mapping
maps_to-insert_mapping c h by x [] = refl
maps_to-insert_mapping c h by x (y ∷ ys) = ground (arith, maps_to-insert_mapping c h by x ys)

maps_to-sort :
    (c h : ℕ) (by : Bool) (xs : List LinuxIdMapping)
    → maps_to c h (sort_id_mappings by xs) ≡ maps_to c h xs
unfolding maps_to sort_id_mappings
maps_to-sort c h by [] = refl
maps_to-sort c h by (x ∷ xs) =
    maps_to-insert_mapping c h by x (sort_id_mappings by xs)
    ∙ ap (λ b. covers c h x || b) (maps_to-sort c h by xs)

insert_mapping-Fits :
    (by : Bool) (x : LinuxIdMapping) (ys : List LinuxIdMapping)
    → Fits x
    → All Fits ys
    → All Fits (insert_mapping by x ys)
unfolding insert_mapping
insert_mapping-Fits by x [] fx fs = (fx, tt)
insert_mapping-Fits by x (y ∷ ys) fx fs = elim (Bool-cases (mapping_less by y x)) [
  | inl less ↦ rw less (fs.0, insert_mapping-Fits by x ys fx fs.1)
  | inr other ↦ rw other (fx, fs)
]

sort-Fits : (by : Bool) (xs : List LinuxIdMapping) → All Fits xs → All Fits (sort_id_mappings by xs)
unfolding sort_id_mappings
sort-Fits by [] fs = tt
sort-Fits by (x ∷ xs) fs =
    insert_mapping-Fits by x (sort_id_mappings by xs) fs.0 (sort-Fits by xs fs.1)

-- Two ranges, the second right behind the first, as one.
joined :
    (c h : ℕ) (a m : LinuxIdMapping)
    → m.container_id ≡ a.container_id + a.size
    → m.host_id ≡ a.host_id + a.size
    → covers c h (record a { size = a.size + m.size }) ≡ (covers c h a || covers c h m)
unfolding covers
joined c h a m p q = ground arith

-- What a step of the loop that goes on has checked.
merge_from-cons :
    (merged prev m : LinuxIdMapping) (ms : List LinuxIdMapping) {out : List LinuxIdMapping}
    → Fits prev
    → merge_from merged prev (m ∷ ms) ≡ ok out
    → (m.container_id ≡ prev.container_id + prev.size)
      × (m.host_id ≡ prev.host_id + prev.size)
      × (merge_from (record merged { size = u32 (merged.size + m.size) }) m ms ≡ ok out)
unfolding merge_from
merge_from-cons merged prev m ms fits e = ground arith

-- `merged` ends where `prev` ends.
merge_from-covers :
    (c h : ℕ) (merged prev : LinuxIdMapping) (ms : List LinuxIdMapping) {out : List LinuxIdMapping}
    → Fits prev
    → All Fits ms
    → merged.container_id + merged.size ≡ prev.container_id + prev.size
    → merged.host_id + merged.size ≡ prev.host_id + prev.size
    → merge_from merged prev ms ≡ ok out
    → maps_to c h out ≡ (covers c h merged || maps_to c h ms)
merge_from-covers c h merged prev [] fp fs pc ph e = unfold merge_from maps_to in ground arith
merge_from-covers c h merged prev (m ∷ ms) fp fs pc ph e =
    let (next, next_host, rest) = merge_from-cons merged prev m ms fp e in
    let fits = fs.0 in
    let no_wrap : u32 (merged.size + m.size) ≡ merged.size + m.size = omega arith in
    let grown : LinuxIdMapping = record merged { size = merged.size + m.size } in
    let rest' : merge_from grown m ms ≡ ok _ = rw no_wrap at rest in
    merge_from-covers c h grown m ms fits fs.1 (omega arith) (omega arith) rest'
    ∙ (unfold maps_to in ground (arith, joined c h merged m (omega arith) (omega arith)))

merge_sorted-covers :
    (c h : ℕ) (ms : List LinuxIdMapping) {out : List LinuxIdMapping}
    → All Fits ms
    → merge_sorted ms ≡ ok out
    → maps_to c h out ≡ maps_to c h ms
unfolding merge_sorted maps_to
merge_sorted-covers c h [] fs e = ground arith
merge_sorted-covers c h (m ∷ ms) fs e = merge_from-covers c h m m ms fs.0 fs.1 refl refl e

-- A merge that succeeds maps the same container IDs to the same host IDs as the given mappings, if
-- the end of each range of theirs, the ID behind its last one, is below 2^32.
pub merge_id_mappings-maps_to :
    (c h : ℕ) (ms : List LinuxIdMapping) {out : List LinuxIdMapping}
    → All Fits ms
    → merge_id_mappings ms ≡ ok out
    → maps_to c h out ≡ maps_to c h ms
unfolding merge_id_mappings
merge_id_mappings-maps_to c h [] fs e = ground arith
merge_id_mappings-maps_to c h (x ∷ []) fs e = ground arith
merge_id_mappings-maps_to c h (x ∷ y ∷ ms) fs e =
    merge_sorted-covers c h (sort_id_mappings false (x ∷ y ∷ ms)) (sort-Fits false (x ∷ y ∷ ms) fs)
      e
    ∙ maps_to-sort c h false (x ∷ y ∷ ms)
