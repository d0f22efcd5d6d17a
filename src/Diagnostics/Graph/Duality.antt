-- ===== src/Diagnostics/Graph/Duality.antt =====
-- The imports and the importers of a graph are two sides of the same edges.
use personas_agentes.Common.{
  codes_eq, codes_eq_iff, ℕ, ◌+◌, ◌≡◌, refl, sym, ap, subst, ◌∙◌, inl, inr, Bool, true, false, List,
  [], ◌∷◌, ◌++◌, Option, map_option, none, some, if◌then◌else◌, length, length-append, get, get-put,
  text_eq, ◌==◌, arith, Bool-cases, Option-cases,
}
use personas_agentes.Diagnostics.Graph.{
  DependencyNode, Nodes, change_node, with_import, with_importer, add_import,
}

-- How often a path is in a list.
abbrev pub count : List ℕ → List (List ℕ) → ℕ
count a [] = 0
count a (x ∷ xs) = (if a == x then 1 else 0) + count a xs

count-snoc :
    (a b : List ℕ) (xs : List (List ℕ))
    → count a (xs ++ b ∷ []) ≡ count a xs + (if a == b then 1 else 0)
count-snoc a b [] = omega arith
count-snoc a b (x ∷ xs) = omega (arith, count-snoc a b xs)

get-change_node :
    (k j : List ℕ) (f : DependencyNode → DependencyNode) (ns : Nodes)
    → get j (change_node k f ns) ≡ (if k == j then map_option f (get j ns) else get j ns)
unfolding change_node
get-change_node k j f ns = elim (Option-cases (get k ns)) [
  | inl n ↦ elim (Bool-cases (codes_eq k j)) [
    | inl e ↦
        let absent : get j ns ≡ none = ap (λ i. get i ns) (sym ((codes_eq_iff k j).0 e)) ∙ n in
        rw (n, change_node) (rw e (rw absent refl))
    | inr e ↦ rw (n, change_node) (rw e refl)
  ]
  | inr (m, g) ↦ elim (Bool-cases (codes_eq k j)) [
    | inl e ↦
        let there : get j ns ≡ some m = ap (λ i. get i ns) (sym ((codes_eq_iff k j).0 e)) ∙ g in
        rw (g, change_node) (get-put k j (f m) ns ∙ rw e (rw there refl))
    | inr e ↦ rw (g, change_node) (get-put k j (f m) ns ∙ rw e refl)
  ]
]

-- What an import makes of a node, which is the one that imports, the one imported, both or neither.
abbrev edge : Bool → Bool → List ℕ → List ℕ → DependencyNode → DependencyNode
edge p q file imp n =
    let m = if p then with_import imp n else n in if q then with_importer file m else m

edge-map :
    (p q : Bool) (file imp : List ℕ) (o : Option DependencyNode)
    → (if q
        then map_option (with_importer file) (if p then map_option (with_import imp) o else o)
        else (if p then map_option (with_import imp) o else o))
      ≡ map_option (edge p q file imp) o
edge-map true true file imp none = refl
edge-map true false file imp none = refl
edge-map false true file imp none = refl
edge-map false false file imp none = refl
edge-map true true file imp (some n) = refl
edge-map true false file imp (some n) = refl
edge-map false true file imp (some n) = refl
edge-map false false file imp (some n) = refl

get-add_import :
    (file imp j : List ℕ) (ns : Nodes)
    → get j (add_import file imp ns) ≡ map_option (edge (file == j) (imp == j) file imp) (get j ns)
unfolding add_import
get-add_import file imp j ns =
    get-change_node imp j (with_importer file) (change_node file (with_import imp) ns)
    ∙ ap (λ o. if imp == j then map_option (with_importer file) o else o)
        (get-change_node file j (with_import imp) ns)
    ∙ edge-map (file == j) (imp == j) file imp (get j ns)

pub map-some :
    {A B : Type 0} (f : A → B) (o : Option A) (b : B)
    → map_option f o ≡ some b
    → (a : A) × ((o ≡ some a) × (f a ≡ b))
map-some f none b h = ground (arith, h)
map-some f (some a) b h = (a, (refl, ground (arith, h)))

-- Each count of a node is that of its list, and a node has another among its imports as often as
-- that one has it among its importers.
pub record Dual (ns : Nodes) : Type 0 where
  pub counts :
      (a : List ℕ) (n : DependencyNode)
      → get a ns ≡ some n
      → (n.fan_in ≡ length n.imported_by) × (n.fan_out ≡ length n.imports)
  pub both_sides :
      (a b : List ℕ) (m n : DependencyNode)
      → get a ns ≡ some m
      → get b ns ≡ some n
      → count b m.imports ≡ count a n.imported_by

edge-counts :
    (p q : Bool) (file imp : List ℕ) (n : DependencyNode)
    → (n.fan_in ≡ length n.imported_by) × (n.fan_out ≡ length n.imports)
    → ((edge p q file imp n).fan_in ≡ length (edge p q file imp n).imported_by)
      × ((edge p q file imp n).fan_out ≡ length (edge p q file imp n).imports)
edge-counts true true file imp n h = (
  omega (arith, h.0, length-append n.imported_by (file ∷ [])),
  omega (arith, h.1, length-append n.imports (imp ∷ [])),
)
edge-counts true false file imp n h = (h.0, omega (arith, h.1, length-append n.imports (imp ∷ [])))
edge-counts false true file imp n h =
    (omega (arith, h.0, length-append n.imported_by (file ∷ [])), h.1)
edge-counts false false file imp n h = h

-- One if both hold.
abbrev both : Bool → Bool → ℕ
both p r = if p then (if r then 1 else 0) else 0

edge-imports :
    (p q : Bool) (file imp b : List ℕ) (n : DependencyNode)
    → count b (edge p q file imp n).imports ≡ count b n.imports + both p (b == imp)
edge-imports true true file imp b n = count-snoc b imp n.imports
edge-imports true false file imp b n = count-snoc b imp n.imports
edge-imports false true file imp b n = omega arith
edge-imports false false file imp b n = omega arith

edge-importers :
    (p q : Bool) (file imp a : List ℕ) (n : DependencyNode)
    → count a (edge p q file imp n).imported_by ≡ count a n.imported_by + both q (a == file)
edge-importers true true file imp a n = count-snoc a file n.imported_by
edge-importers false true file imp a n = count-snoc a file n.imported_by
edge-importers true false file imp a n = omega arith
edge-importers false false file imp a n = omega arith

codes_eq_comm : (xs ys : List ℕ) → codes_eq xs ys ≡ codes_eq ys xs
codes_eq_comm [] [] = refl
codes_eq_comm [] (y ∷ ys) = refl
codes_eq_comm (x ∷ xs) [] = refl
codes_eq_comm (x ∷ xs) (y ∷ ys) = ground (arith, codes_eq_comm xs ys)

both_comm : (p q r t : Bool) → p ≡ t → q ≡ r → both p r ≡ both q t
both_comm p q r t e f = ground (arith, e, f)

pub add_import-Dual : (file imp : List ℕ) (ns : Nodes) → Dual ns → Dual (add_import file imp ns)
add_import-Dual file imp ns h = record {
  counts = λ a n g.
      let o = map-some _ (get a ns) n (sym (get-add_import file imp a ns) ∙ g) in
      subst (λ m. (m.fan_in ≡ length m.imported_by) × (m.fan_out ≡ length m.imports)) o.1.1
        (edge-counts (file == a) (imp == a) file imp o.0 (h.counts a o.0 o.1.0));
  both_sides = λ a b m n g k.
      let o = map-some _ (get a ns) m (sym (get-add_import file imp a ns) ∙ g) in
      let u = map-some _ (get b ns) n (sym (get-add_import file imp b ns) ∙ k) in
      ap (λ x. count b x.imports) (sym o.1.1)
      ∙ edge-imports (file == a) (imp == a) file imp b o.0
      ∙ omega (
        arith,
        h.both_sides a b o.0 u.0 o.1.0 u.1.0,
        both_comm (file == a) (imp == b) (b == imp) (a == file) (codes_eq_comm file a)
            (codes_eq_comm imp b),
      )
      ∙ sym (edge-importers (file == b) (imp == b) file imp a u.0)
      ∙ ap (λ x. count a x.imported_by) u.1.1;
}
