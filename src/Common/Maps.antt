-- ===== src/Common/Maps.antt =====
-- A `Map`: entries in the order in which their keys were first set.
use mathlib.Core.Path.{◌≡◌, refl}
use mathlib.Core.Logic.{◌↔◌}
use mathlib.Core.Bool.{Bool, true, false}
use mathlib.Core.List.{List, [], ◌∷◌}
use mathlib.Core.Option.{Option, none, some}
use native.Mathlib.Omega.{arith}
use personas_agentes.Common.Tests.{if◌then◌else◌, Eq, ◌==◌}
use personas_agentes.Common.Lists.{contains}

module _ {ℓ κ} {K : Type ℓ} {V : Type κ} ⦃e : Eq K⦄ where
  abbrev pub get : K → List (K × V) → Option V
  get k [] = none
  get k ((j, v) ∷ m) = if j == k then some v else get k m

  abbrev pub has : K → List (K × V) → Bool
  has k [] = false
  has k ((j, v) ∷ m) = if j == k then true else has k m

  -- A key that is there keeps its place, a new one goes to the end.
  abbrev pub put : K → V → List (K × V) → List (K × V)
  put k v [] = (k, v) ∷ []
  put k v ((j, w) ∷ m) = if j == k then (k, v) ∷ m else (j, w) ∷ put k v m

  abbrev pub delete : K → List (K × V) → List (K × V)
  delete k [] = []
  delete k ((j, w) ∷ m) = let rest = delete k m in if j == k then rest else (j, w) ∷ rest

  abbrev pub keys : List (K × V) → List K
  keys [] = []
  keys ((j, w) ∷ m) = j ∷ keys m

  pub get-put :
      (k j : K) (v : V) (m : List (K × V))
      → get j (put k v m) ≡ (if k == j then some v else get j m)
  get-put k j v [] = refl
  get-put k j v ((i, w) ∷ m) =
      ground (arith, e.correct k j, e.correct i k, e.correct i j, get-put k j v m)

  pub get-delete :
      (k j : K) (m : List (K × V)) → get j (delete k m) ≡ (if k == j then none else get j m)
  get-delete k j [] = ground arith
  get-delete k j ((i, w) ∷ m) =
      ground (arith, e.correct k j, e.correct i k, e.correct i j, get-delete k j m)

  pub has-put :
      (k j : K) (v : V) (m : List (K × V)) → has j (put k v m) ≡ (if k == j then true else has j m)
  has-put k j v [] = refl
  has-put k j v ((i, w) ∷ m) =
      ground (arith, e.correct k j, e.correct i k, e.correct i j, has-put k j v m)

  pub has_iff_get : (k : K) (m : List (K × V)) → (has k m ≡ false) ↔ (get k m ≡ none)
  has_iff_get k [] = ground arith
  has_iff_get k ((j, w) ∷ m) = ground (arith, has_iff_get k m)

  -- A new key that is deleted again leaves the map as it was, in the same order.
  pub delete-put : (k : K) (v : V) (m : List (K × V)) → has k m ≡ false → delete k (put k v m) ≡ m
  delete-put k v [] h = ground (arith, e.correct k k)
  delete-put k v ((j, w) ∷ m) h = ground (arith, delete-put k v m)

  pub contains-keys : (k : K) (m : List (K × V)) → contains (keys m) k ≡ has k m
  contains-keys k [] = refl
  contains-keys k ((j, w) ∷ m) = ground (arith, contains-keys k m)
