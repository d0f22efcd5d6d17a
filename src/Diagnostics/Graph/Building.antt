-- ===== src/Diagnostics/Graph/Building.antt =====
-- The invariant of the edges, over the loops of the build.
use personas_agentes.Common.{
  codes_eq, codes_eq_iff, ℕ, ◌≡◌, refl, sym, ap, subst, ◌∙◌, inl, inr, List, [], ◌∷◌, Option,
  map_option, none, some, length, leb, get, put, get-put, text_eq, Bool-cases, arith,
}
use personas_agentes.Diagnostics.Graph.{
  DependencyNode, Nodes, new_node, add_nodes, add_import, add_imports_of, add_read, add_files,
  mark_hubs, build_nodes, build,
}
use personas_agentes.Diagnostics.Graph.Duality.{count, map-some, Dual, add_import-Dual}

add_imports_of-Dual :
    (file : List ℕ) (imps : List (List ℕ)) (ns : Nodes)
    → Dual ns
    → Dual (add_imports_of file imps ns)
unfolding add_imports_of
add_imports_of-Dual file [] ns h = h
add_imports_of-Dual file (imp ∷ imps) ns h =
    add_imports_of-Dual file imps (add_import file imp ns) (add_import-Dual file imp ns h)

add_read-Dual :
    (file : List ℕ) (read : Option (List (List ℕ))) (ns : Nodes)
    → Dual ns
    → Dual (add_read file read ns)
add_read-Dual file none ns h = h
add_read-Dual file (some imps) ns h = add_imports_of-Dual file imps ns h

add_files-Dual :
    (files : List (List ℕ)) (imports_of : List ℕ → Option (List (List ℕ))) (ns : Nodes)
    → Dual ns
    → Dual (add_files files imports_of ns)
unfolding add_files
add_files-Dual [] imports_of ns h = h
add_files-Dual (f ∷ fs) imports_of ns h =
    add_files-Dual fs imports_of (add_read f (imports_of f) ns)
      (add_read-Dual f (imports_of f) ns h)

-- The nodes of the first loop have no edges.
abbrev Bare : Nodes → Type 0
Bare ns = (a : List ℕ) (n : DependencyNode) → get a ns ≡ some n → n ≡ new_node a

abbrev node_or : DependencyNode → Option DependencyNode → DependencyNode
node_or d none = d
node_or d (some n) = n

add_nodes-Bare : (fs : List (List ℕ)) (ns : Nodes) → Bare ns → Bare (add_nodes fs ns)
unfolding add_nodes
add_nodes-Bare [] ns h = h
add_nodes-Bare (f ∷ fs) ns h = add_nodes-Bare fs (put f (new_node f) ns) (λ a n g.
    elim (Bool-cases (codes_eq f a)) [
      | inl e ↦
          let there : get a (put f (new_node f) ns) ≡ some (new_node f) =
            get-put f a (new_node f) ns ∙ rw e refl in
          ap (node_or n) (sym g ∙ there) ∙ ap new_node ((codes_eq_iff f a).0 e)
      | inr e ↦
          let there : get a (put f (new_node f) ns) ≡ get a ns =
            get-put f a (new_node f) ns ∙ rw e refl in
          h a n (sym there ∙ g)
    ])

Bare-Dual : (ns : Nodes) → Bare ns → Dual ns
Bare-Dual ns h = record {
  counts = λ a n g.
      subst (λ m. (m.fan_in ≡ length m.imported_by) × (m.fan_out ≡ length m.imports))
        (sym (h a n g)) (refl, refl);
  both_sides = λ a b m n g k.
      ap (λ x. count b x.imports) (h a m g) ∙ sym (ap (λ x. count a x.imported_by) (h b n k));
}

abbrev marked : DependencyNode → DependencyNode
marked n = record n { is_hub = leb 4 n.fan_in }

get-mark_hubs : (a : List ℕ) (ns : Nodes) → get a (mark_hubs ns) ≡ map_option marked (get a ns)
unfolding mark_hubs
get-mark_hubs a [] = refl
get-mark_hubs a ((k, n) ∷ ns) = elim (Bool-cases (codes_eq k a)) [
  | inl e ↦ rw e refl
  | inr e ↦ rw e (get-mark_hubs a ns)
]

mark_hubs-Dual : (ns : Nodes) → Dual ns → Dual (mark_hubs ns)
mark_hubs-Dual ns h = record {
  counts = λ a n g.
      let o = map-some marked (get a ns) n (sym (get-mark_hubs a ns) ∙ g) in
      subst (λ m. (m.fan_in ≡ length m.imported_by) × (m.fan_out ≡ length m.imports)) o.1.1
        (h.counts a o.0 o.1.0);
  both_sides = λ a b m n g k.
      let o = map-some marked (get a ns) m (sym (get-mark_hubs a ns) ∙ g) in
      let u = map-some marked (get b ns) n (sym (get-mark_hubs b ns) ∙ k) in
      ap (λ x. count b x.imports) (sym o.1.1)
      ∙ h.both_sides a b o.0 u.0 o.1.0 u.1.0
      ∙ ap (λ x. count a x.imported_by) u.1.1;
}

-- In the graph of any files, the counts of a node are the numbers of its imports and of its
-- importers, it is a hub exactly from four importers on, and one node imports another as often as
-- that one lists it as an importer.
pub build-Dual :
    (files : List (List ℕ)) (imports_of : List ℕ → Option (List (List ℕ)))
    → Dual (build files imports_of).nodes
      × ((a : List ℕ) (n : DependencyNode)
          → get a (build files imports_of).nodes ≡ some n
          → n.is_hub ≡ leb 4 (length n.imported_by))
unfolding build build_nodes
build-Dual files imports_of =
    let ns = add_files files imports_of (add_nodes files []) in
    let h =
      add_files-Dual files imports_of (add_nodes files [])
        (Bare-Dual (add_nodes files []) (add_nodes-Bare files [] (λ a n g. ground (arith, g)))) in
    (
      mark_hubs-Dual ns h,
      λ a n g.
          let o = map-some marked (get a ns) n (sym (get-mark_hubs a ns) ∙ g) in
          ap (λ m. m.is_hub) (sym o.1.1)
          ∙ ap (leb 4) (h.counts a o.0 o.1.0).0
          ∙ ap (λ m. leb 4 (length m.imported_by)) o.1.1,
    )
