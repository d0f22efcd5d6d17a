-- ===== src/Common/Occurrences.antt =====
-- What the tests on texts decide: that a text stands at the beginning of another, or within it.
use Prim.Native.Nat.{ℕ}
use mathlib.Core.Path.{◌≡◌, refl, sym, ap, subst}
use mathlib.Core.Logic.{◌↔◌, inl, inr}
use mathlib.Core.Bool.{true, false}
use mathlib.Core.List.{List, [], ◌∷◌, ◌++◌}
use mathlib.Core.Option.{some}
use native.Mathlib.Omega.{arith}
use personas_agentes.Common.Tests.{Bool-cases}
use personas_agentes.Common.Lists.{All}
use personas_agentes.Common.Texts.{starts_with, includes, after, is_space, skip_space}

abbrev pub Starts : List ℕ → List ℕ → Type 0
Starts part text = (rest : List ℕ) × (text ≡ part ++ rest)

abbrev pub Occurs : List ℕ → List ℕ → Type 0
Occurs part text = (before : List ℕ) × ((rest : List ℕ) × (text ≡ before ++ (part ++ rest)))

pub after_sound : (part text rest : List ℕ) → after part text ≡ some rest → text ≡ part ++ rest
after_sound [] text rest e = ground (arith, e)
after_sound (p ∷ ps) [] rest e = ground (arith, e)
after_sound (p ∷ ps) (x ∷ xs) rest e = ground (arith, e, after_sound ps xs rest)

pub after-append : (part rest : List ℕ) → after part (part ++ rest) ≡ some rest
after-append [] rest = refl
after-append (p ∷ ps) rest = ground (arith, after-append ps rest)

pub starts_with-Starts : (part text : List ℕ) → starts_with part text ≡ true → Starts part text
starts_with-Starts [] text e = (text, refl)
starts_with-Starts (p ∷ ps) [] e = ground (arith, e)
starts_with-Starts (p ∷ ps) (x ∷ xs) e =
    let here : (p ≡ x) × (starts_with ps xs ≡ true) = ground (arith, e) in
    let found = starts_with-Starts ps xs here.1 in (found.0, ground (arith, here.0, found.1))

pub starts_with-append : (part rest : List ℕ) → starts_with part (part ++ rest) ≡ true
starts_with-append [] rest = refl
starts_with-append (p ∷ ps) rest = ground (arith, starts_with-append ps rest)

pub includes-Occurs : (part text : List ℕ) → includes part text ≡ true → Occurs part text
includes-Occurs part [] e = ([], starts_with-Starts part [] e)
includes-Occurs part (x ∷ xs) e = elim (Bool-cases (starts_with part (x ∷ xs))) [
  | inl here ↦ ([], starts_with-Starts part (x ∷ xs) here)
  | inr off ↦
      let found = includes-Occurs part xs (ground (arith, e, off)) in
      (x ∷ found.0, (found.1.0, ap (λ ys. x ∷ ys) found.1.1))
]

pub includes-starts :
    (part text : List ℕ) → starts_with part text ≡ true → includes part text ≡ true
includes-starts part [] e = e
includes-starts part (x ∷ xs) e = rw e refl

pub includes-append : (part before rest : List ℕ) → includes part (before ++ (part ++ rest)) ≡ true
includes-append part [] rest = includes-starts part (part ++ rest) (starts_with-append part rest)
includes-append part (b ∷ bs) rest = ground (arith, includes-append part bs rest)

pub includes_iff : (part text : List ℕ) → (includes part text ≡ true) ↔ Occurs part text
includes_iff part text = (
  includes-Occurs part text,
  λ o. subst (λ t. includes part t ≡ true) (sym o.1.1) (includes-append part o.0 o.1.0),
)

abbrev pub IsSpaces : List ℕ → Type 0
IsSpaces = All (λ c. is_space c ≡ true)

-- A text whose first character is no white space.
abbrev pub IsFlush : List ℕ → Type 0
IsFlush [] = Unit
IsFlush (c ∷ cs) = is_space c ≡ false

pub skip_space-append :
    (spaces rest : List ℕ) → IsSpaces spaces → IsFlush rest → skip_space (spaces ++ rest) ≡ rest
skip_space-append [] [] h f = refl
skip_space-append [] (c ∷ cs) h f = rw f refl
skip_space-append (s ∷ ss) rest h f = rw h.0 (skip_space-append ss rest h.1 f)

pub skip_space-split :
    (text : List ℕ) → (spaces : List ℕ) × (IsSpaces spaces × (text ≡ spaces ++ skip_space text))
skip_space-split [] = ([], (tt, refl))
skip_space-split (c ∷ cs) = elim (Bool-cases (is_space c)) [
  | inl e ↦
      let rest = skip_space-split cs in
      (c ∷ rest.0, ((e, rest.1.0), rw e (ap (λ t. c ∷ t) rest.1.1)))
  | inr e ↦ ([], (tt, rw e refl))
]
