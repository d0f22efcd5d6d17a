-- ===== src/Diagnostics/Graph.antt =====
-- src_local/engines/diagnostics/audit_code_guardian_service.ts: DependencyGraph.
-- Paths are texts, lists of character codes, relative to the project. The files that the walk
-- finds, and for each of them the imports that it has and that exist (`none` if it cannot be read),
-- are arguments. A stable sort is by insertion.
pub mod Duality
pub mod Building
pub mod Pairs
mod Examples
use personas_agentes.Common.{
  codes, codes_eq, ℕ, zero, suc, ◌+◌, ◌*◌, ◌/◌, max, Bool, true, false, not, ◌&&◌, ◌||◌, List, [],
  ◌∷◌, ◌++◌, map, Option, none, some, if◌then◌else◌, keep, length, take, leb, ltb, nat_beq,
  contains, get, put, text_eq,
}

pub record DependencyNode : Type 0 where
  pub file : List ℕ
  pub imports : List (List ℕ)
  pub imported_by : List (List ℕ)
  pub fan_in : ℕ
  pub fan_out : ℕ
  pub is_hub : Bool

abbrev pub Nodes : Type 0
Nodes = List (List ℕ × DependencyNode)

abbrev pub new_node : List ℕ → DependencyNode
new_node file = record {
  file = file;
  imports = [];
  imported_by = [];
  fan_in = 0;
  fan_out = 0;
  is_hub = false;
}

-- The first loop of `build`.
pub add_nodes : List (List ℕ) → Nodes → Nodes
add_nodes [] ns = ns
add_nodes (f ∷ fs) ns = add_nodes fs (put f (new_node f) ns)

-- A node is changed in place, if there is one.
pub change_node : List ℕ → (DependencyNode → DependencyNode) → Nodes → Nodes
change_node k f ns = elim (get k ns) [ none ↦ ns | some n ↦ put k (f n) ns ]

abbrev pub with_import : List ℕ → DependencyNode → DependencyNode
with_import imp n = record n { imports = n.imports ++ imp ∷ []; fan_out = suc n.fan_out }

abbrev pub with_importer : List ℕ → DependencyNode → DependencyNode
with_importer file n = record n { imported_by = n.imported_by ++ file ∷ []; fan_in = suc n.fan_in }

-- The body of the loop over the imports of a file.
pub add_import : List ℕ → List ℕ → Nodes → Nodes
unfolding change_node
add_import file imp ns =
    change_node imp (with_importer file) (change_node file (with_import imp) ns)

pub add_imports_of : List ℕ → List (List ℕ) → Nodes → Nodes
unfolding add_import
add_imports_of file [] ns = ns
add_imports_of file (imp ∷ imps) ns = add_imports_of file imps (add_import file imp ns)

abbrev pub add_read : List ℕ → Option (List (List ℕ)) → Nodes → Nodes
add_read file none ns = ns
add_read file (some imps) ns = add_imports_of file imps ns

-- The second loop of `build`.
pub add_files : List (List ℕ) → (List ℕ → Option (List (List ℕ))) → Nodes → Nodes
unfolding add_imports_of
add_files [] imports_of ns = ns
add_files (f ∷ fs) imports_of ns = add_files fs imports_of (add_read f (imports_of f) ns)

-- The third loop of `build`.
pub mark_hubs : Nodes → Nodes
mark_hubs [] = []
mark_hubs ((k, n) ∷ ns) = (k, record n { is_hub = leb 4 n.fan_in }) ∷ mark_hubs ns

pub build_nodes : List (List ℕ) → (List ℕ → Option (List (List ℕ))) → Nodes
unfolding add_nodes add_files mark_hubs
build_nodes files imports_of = mark_hubs (add_files files imports_of (add_nodes files []))

abbrev pub values : Nodes → List DependencyNode
values [] = []
values ((k, n) ∷ ns) = n ∷ values ns

-- `sort((a, b) => b.fanIn - a.fanIn)`
abbrev pub insert : DependencyNode → List DependencyNode → List DependencyNode
insert n [] = n ∷ []
insert n (m ∷ ms) = let rest = insert n ms in if ltb m.fan_in n.fan_in then n ∷ m ∷ ms else m ∷ rest

abbrev pub sort_from : List DependencyNode → List DependencyNode → List DependencyNode
sort_from sorted [] = sorted
sort_from sorted (n ∷ ns) = sort_from (insert n sorted) ns

pub sorted_by_fan_in : Nodes → List DependencyNode
sorted_by_fan_in ns = sort_from [] (keep (λ n. ltb 0 n.fan_in) (values ns))

abbrev pub text_le : List ℕ → List ℕ → Bool
text_le [] ys = true
text_le (x ∷ xs) [] = false
text_le (x ∷ xs) (y ∷ ys) = ltb x y || (nat_beq x y && text_le xs ys)

-- `[a, b].sort().join('|')`
pub key : List ℕ → List ℕ → List ℕ
key a b = if text_le a b then a ++ codes "|" ++ b else b ++ codes "|" ++ a

-- The keys that were seen, and the pairs.
abbrev pub Found : Type 0
Found = List (List ℕ) × List (List ℕ × List ℕ)

pub add_pair : List ℕ → List ℕ → Found → Found
unfolding key
add_pair a b (seen, pairs) =
    if contains seen (key a b) then (seen, pairs) else (seen ++ key a b ∷ [], pairs ++ (a, b) ∷ [])

-- A loop over the imports of a node that pass a test.
pub add_pairs : (List ℕ → Bool) → List ℕ → List (List ℕ) → Found → Found
unfolding add_pair
add_pairs p a [] found = found
add_pairs p a (b ∷ bs) found = add_pairs p a bs (if p b then add_pair a b found else found)

abbrev pub imports_back : Nodes → List ℕ → List ℕ → Bool
imports_back ns a b = elim (get b ns) [ none ↦ false | some t ↦ contains t.imports a ]

abbrev pub is_hub_at : Nodes → List ℕ → Bool
is_hub_at ns b = elim (get b ns) [ none ↦ false | some t ↦ t.is_hub ]

-- The three loops of `findStrongestPairs` over nodes, each with its test.
pub mutual_pairs : Nodes → List DependencyNode → Found → Found
unfolding add_pairs
mutual_pairs ns [] found = found
mutual_pairs ns (n ∷ rest) found =
    mutual_pairs ns rest (add_pairs (imports_back ns n.file) n.file n.imports found)

pub hub_pairs : Nodes → List DependencyNode → Found → Found
unfolding add_pairs
hub_pairs ns [] found = found
hub_pairs ns (n ∷ rest) found = hub_pairs ns rest (add_pairs (is_hub_at ns) n.file n.imports found)

pub first_pairs : List DependencyNode → Found → Found
unfolding add_pairs
first_pairs [] found = found
first_pairs (n ∷ rest) found =
    first_pairs rest (add_pairs (λ b. true) n.file (take 3 n.imports) found)

pub find_strongest_pairs : Nodes → List DependencyNode → List (List ℕ × List ℕ)
unfolding mutual_pairs hub_pairs first_pairs
find_strongest_pairs ns sorted =
    let hubs = keep (λ n. n.is_hub) sorted in
    let (seen, pairs) =
      first_pairs (take 10 hubs) (hub_pairs ns hubs (mutual_pairs ns (values ns) ([], []))) in
    take 20 pairs

pub record DependencyGraphResult : Type 0 where
  pub nodes : Nodes
  pub e2e_candidates : List (List ℕ)
  pub integration_pairs : List (List ℕ × List ℕ)
  pub isolated_modules : List (List ℕ)

pub build : List (List ℕ) → (List ℕ → Option (List (List ℕ))) → DependencyGraphResult
unfolding build_nodes sorted_by_fan_in find_strongest_pairs
build files imports_of =
    let ns = build_nodes files imports_of in
    let sorted = sorted_by_fan_in ns in
    record {
      nodes = ns;
      e2e_candidates = take (max 1 ((5 * length ns + 99) / 100)) (map (λ n. n.file) sorted);
      integration_pairs = find_strongest_pairs ns sorted;
      isolated_modules =
          map (λ n. n.file) (keep (λ n. nat_beq n.fan_in 0 && ltb 0 n.fan_out) (values ns));
    }
