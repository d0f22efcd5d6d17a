-- ===== src/Diagnostics/Graph/Pairs.antt =====
-- The pairs of modules that the plan of the tests is given.
use personas_agentes.Common.{
  length-take, codes_eq, codes_eq_iff, ℕ, zero, suc, ◌≤◌, ◌≡◌, refl, sym, ap, subst, ◌∙◌, inl, inr,
  Bool, true, false, ◌||◌, List, [], ◌∷◌, ◌++◌, map, map-append, length, take, contains, text_eq,
  keep, arith, Bool-cases,
}
use personas_agentes.Diagnostics.Graph.{
  DependencyNode, Nodes, Found, key, add_pair, add_pairs, mutual_pairs, hub_pairs, first_pairs,
  imports_back, is_hub_at, values, find_strongest_pairs,
}

-- No text is twice in a list.
abbrev pub Distinct : List (List ℕ) → Type 0
Distinct [] = Unit
Distinct (x ∷ xs) = (contains xs x ≡ false) × Distinct xs

contains-snoc :
    (xs : List (List ℕ)) (x y : List ℕ)
    → contains (xs ++ y ∷ []) x ≡ (contains xs x || codes_eq y x)
contains-snoc [] x y = ground arith
contains-snoc (z ∷ zs) x y = ground (arith, contains-snoc zs x y)

Distinct-snoc :
    (xs : List (List ℕ)) (y : List ℕ)
    → Distinct xs
    → contains xs y ≡ false
    → Distinct (xs ++ y ∷ [])
Distinct-snoc [] y d n = (refl, tt)
Distinct-snoc (x ∷ xs) y d n = (
  ground (arith, contains-snoc xs x y, d.0, n, codes_eq_iff x y, codes_eq_iff y x),
  Distinct-snoc xs y d.1 (ground (arith, n)),
)

contains-take :
    (n : ℕ) (xs : List (List ℕ)) (x : List ℕ)
    → contains xs x ≡ false
    → contains (take n xs) x ≡ false
contains-take zero xs x h = refl
contains-take (suc n) [] x h = refl
contains-take (suc n) (y ∷ ys) x h = ground (arith, h, contains-take n ys x)

Distinct-take : (n : ℕ) (xs : List (List ℕ)) → Distinct xs → Distinct (take n xs)
Distinct-take zero xs d = tt
Distinct-take (suc n) [] d = tt
Distinct-take (suc n) (x ∷ xs) d = (contains-take n xs x d.0, Distinct-take n xs d.1)

abbrev pub keys_of : List (List ℕ × List ℕ) → List (List ℕ)
keys_of = map (λ p. key p.0 p.1)

keys_of-take : (n : ℕ) (ps : List (List ℕ × List ℕ)) → keys_of (take n ps) ≡ take n (keys_of ps)
keys_of-take zero ps = refl
keys_of-take (suc n) [] = refl
keys_of-take (suc n) (p ∷ ps) = ap (λ ks. key p.0 p.1 ∷ ks) (keys_of-take n ps)

-- The keys that were seen are those of the pairs, each once.
abbrev Seen : Found → Type 0
Seen (seen, pairs) = (seen ≡ keys_of pairs) × Distinct seen

add_pair-Seen : (a b : List ℕ) (f : Found) → Seen f → Seen (add_pair a b f)
unfolding add_pair
add_pair-Seen a b (seen, pairs) h = elim (Bool-cases (contains seen (key a b))) [
  | inl e ↦ rw e h
  | inr e ↦ rw e (
    ap (λ ks. ks ++ key a b ∷ []) h.0 ∙ sym (map-append (λ p. key p.0 p.1) pairs ((a, b) ∷ [])),
    Distinct-snoc seen (key a b) h.1 e,
  )
]

add_pairs-Seen :
    (p : List ℕ → Bool) (a : List ℕ) (bs : List (List ℕ)) (f : Found)
    → Seen f
    → Seen (add_pairs p a bs f)
unfolding add_pairs
add_pairs-Seen p a [] f h = h
add_pairs-Seen p a (b ∷ bs) f h = elim (Bool-cases (p b)) [
  | inl e ↦ rw (e, add_pairs) (add_pairs-Seen p a bs (add_pair a b f) (add_pair-Seen a b f h))
  | inr e ↦ rw (e, add_pairs) (add_pairs-Seen p a bs f h)
]

mutual_pairs-Seen :
    (ns : Nodes) (nodes : List DependencyNode) (f : Found) → Seen f → Seen (mutual_pairs ns nodes f)
unfolding mutual_pairs
mutual_pairs-Seen ns [] f h = h
mutual_pairs-Seen ns (n ∷ rest) f h =
    mutual_pairs-Seen ns rest (add_pairs (imports_back ns n.file) n.file n.imports f)
      (add_pairs-Seen (imports_back ns n.file) n.file n.imports f h)

hub_pairs-Seen :
    (ns : Nodes) (nodes : List DependencyNode) (f : Found) → Seen f → Seen (hub_pairs ns nodes f)
unfolding hub_pairs
hub_pairs-Seen ns [] f h = h
hub_pairs-Seen ns (n ∷ rest) f h =
    hub_pairs-Seen ns rest (add_pairs (is_hub_at ns) n.file n.imports f)
      (add_pairs-Seen (is_hub_at ns) n.file n.imports f h)

first_pairs-Seen : (nodes : List DependencyNode) (f : Found) → Seen f → Seen (first_pairs nodes f)
unfolding first_pairs
first_pairs-Seen [] f h = h
first_pairs-Seen (n ∷ rest) f h =
    first_pairs-Seen rest (add_pairs (λ b. true) n.file (take 3 n.imports) f)
      (add_pairs-Seen (λ b. true) n.file (take 3 n.imports) f h)

-- The strongest pairs of a graph are at most twenty, and no two of them have the same key, the names
-- of the two modules in their order as texts.
pub find_strongest_pairs-Distinct :
    (ns : Nodes) (sorted : List DependencyNode)
    → (length (find_strongest_pairs ns sorted) ≤ 20)
      × Distinct (keys_of (find_strongest_pairs ns sorted))
unfolding find_strongest_pairs
find_strongest_pairs-Distinct ns sorted =
    let hubs = keep (λ n. n.is_hub) sorted in
    let first = mutual_pairs ns (values ns) ([], []) in
    let second = hub_pairs ns hubs first in
    let found = first_pairs (take 10 hubs) second in
    let h =
      first_pairs-Seen (take 10 hubs) second
        (hub_pairs-Seen ns hubs first (mutual_pairs-Seen ns (values ns) ([], []) (refl, tt))) in
    (
      length-take 20 found.1,
      subst Distinct (sym (keys_of-take 20 found.1))
          (Distinct-take 20 (keys_of found.1) (subst Distinct h.0 h.1)),
    )
