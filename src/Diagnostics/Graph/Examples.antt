-- ===== src/Diagnostics/Graph/Examples.antt =====
-- Two modules that import each other.
use personas_agentes.Common.{
  codes, ℕ, ◌≤◌, ◌≡◌, refl, List, [], ◌∷◌, Option, some, get, length, leb, text_eq,
}
use personas_agentes.Diagnostics.Graph.{
  DependencyNode, Nodes, build, build_nodes, add_nodes, change_node, add_import, add_imports_of,
  add_files, mark_hubs, sorted_by_fan_in, find_strongest_pairs, key, add_pair, add_pairs,
  mutual_pairs, hub_pairs, first_pairs,
}
use personas_agentes.Diagnostics.Graph.Duality.{Dual}
use personas_agentes.Diagnostics.Graph.Building.{build-Dual}
use personas_agentes.Diagnostics.Graph.Pairs.{Distinct, keys_of, find_strongest_pairs-Distinct}

abbrev files : List (List ℕ)
files = codes "a.ts" ∷ codes "b.ts" ∷ []

-- Each imports both, itself included.
abbrev imports_of : List ℕ → Option (List (List ℕ))
imports_of f = some files

build-Dual_example :
    Dual (build files imports_of).nodes
    × ((a : List ℕ) (n : DependencyNode)
        → get a (build files imports_of).nodes ≡ some n
        → n.is_hub ≡ leb 4 (length n.imported_by))
build-Dual_example = build-Dual files imports_of

abbrev graph : Nodes
graph = (build files imports_of).nodes

find_strongest_pairs-Distinct_holds :
    (length (find_strongest_pairs graph []) ≤ 20)
    × Distinct (keys_of (find_strongest_pairs graph []))
find_strongest_pairs-Distinct_holds = find_strongest_pairs-Distinct graph []

pairs_once :
    (build files imports_of).integration_pairs
    ≡ (codes "a.ts", codes "a.ts")
      ∷ (codes "a.ts", codes "b.ts")
      ∷ (codes "b.ts", codes "b.ts")
      ∷ []
unfolding build build_nodes add_nodes change_node add_import add_imports_of add_files mark_hubs
    sorted_by_fan_in find_strongest_pairs key add_pair add_pairs mutual_pairs hub_pairs first_pairs
pairs_once = refl
