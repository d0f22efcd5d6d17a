-- ===== src/Common/Files.antt =====
-- Texts as keys of a map; a directory with what lies below it, and a walk over its files.
use Prim.Native.Nat.{ℕ}
use mathlib.Core.Path.{◌≡◌, refl, subst}
use mathlib.Core.Logic.{◌↔◌}
use mathlib.Core.Bool.{Bool, true}
use mathlib.Core.List.{List, [], ◌∷◌, ◌++◌}
use native.Mathlib.Omega.{arith}
use personas_agentes.Common.Tests.{Eq, if◌then◌else◌}
use personas_agentes.Common.Texts.{codes_eq}

codes_eq_sound : (xs ys : List ℕ) → codes_eq xs ys ≡ true → xs ≡ ys
codes_eq_sound [] [] e = refl
codes_eq_sound [] (y ∷ ys) e = ground (arith, e)
codes_eq_sound (x ∷ xs) [] e = ground (arith, e)
codes_eq_sound (x ∷ xs) (y ∷ ys) e = ground (arith, e, codes_eq_sound xs ys)

codes_eq_self : (xs : List ℕ) → codes_eq xs xs ≡ true
codes_eq_self [] = refl
codes_eq_self (x ∷ xs) = ground (arith, codes_eq_self xs)

pub codes_eq_iff : (xs ys : List ℕ) → (codes_eq xs ys ≡ true) ↔ (xs ≡ ys)
codes_eq_iff xs ys =
    (codes_eq_sound xs ys, λ e. subst (λ zs. codes_eq xs zs ≡ true) e (codes_eq_self xs))

instance abbrev pub text_eq : Eq (List ℕ)
text_eq = record { equal = codes_eq; correct = codes_eq_iff }

-- What a directory holds, in the order in which it is read. One that cannot be read is empty.
mutual
  pub data Entry : Type 0 where
    plain : List ℕ → Entry
    directory : List ℕ → Entries → Entry

  pub data Entries : Type 0 where
    end : Entries
    entry : Entry → Entries → Entries

-- The paths of the files below a directory that are kept, but for those in ignored directories;
-- `join` puts a name behind a path.
module _ (join : List ℕ → List ℕ → List ℕ) (ignored kept : List ℕ → Bool) where
  unfoldable mutual
    pub paths_of : List ℕ → Entry → List (List ℕ)
    paths_of path (plain name) = if kept name then join path name ∷ [] else []
    paths_of path (directory name inside) =
        let below = paths_in (join path name) inside in if ignored name then [] else below

    pub paths_in : List ℕ → Entries → List (List ℕ)
    paths_in path end = []
    paths_in path (entry e es) = paths_of path e ++ paths_in path es
