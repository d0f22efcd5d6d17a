-- ===== src/Common/Lines.antt =====
-- `split("\n")`, and the lines of a text that was read in two pieces.
use Prim.Native.Nat.{ℕ}
use mathlib.Core.Path.{◌≡◌, refl, ap, ◌∙◌}
use mathlib.Core.Logic.{inl, inr}
use mathlib.Core.Bool.{false}
use mathlib.Core.List.{List, [], ◌∷◌, ◌++◌, append_assoc}
use personas_agentes.Common.Tests.{Bool-cases, nat_beq, if◌then◌else◌}

-- `split("\n")`: the lines, and what stands behind the last line end.
abbrev pub add_char : ℕ → List (List ℕ) × List ℕ → List (List ℕ) × List ℕ
add_char c ([], rest) = ([], c ∷ rest)
add_char c (line ∷ lines, rest) = ((c ∷ line) ∷ lines, rest)

abbrev pub end_line : List (List ℕ) × List ℕ → List (List ℕ) × List ℕ
end_line (lines, rest) = ([] ∷ lines, rest)

unfoldable pub split_lines : List ℕ → List (List ℕ) × List ℕ
split_lines [] = ([], [])
split_lines (c ∷ cs) =
    let later = split_lines cs in if nat_beq c 10 then end_line later else add_char c later

-- All pieces of `split("\n")`.
abbrev pub all_lines : List ℕ → List (List ℕ)
all_lines t = let (lines, rest) = split_lines t in lines ++ rest ∷ []

-- The lines of a text that goes on with `more`, from those of the text.
abbrev joined : List (List ℕ) × List ℕ → List ℕ → List (List ℕ) × List ℕ
joined (lines, rest) more = let (later, last) = split_lines (rest ++ more) in (lines ++ later, last)

add_char-joined :
    (c : ℕ) (x : List (List ℕ) × List ℕ) (more : List ℕ)
    → nat_beq c 10 ≡ false
    → add_char c (joined x more) ≡ joined (add_char c x) more
unfolding split_lines
add_char-joined c ([], rest) more e = rw e refl
add_char-joined c (line ∷ lines, rest) more e = refl

pub split_lines-append : (a b : List ℕ) → split_lines (a ++ b) ≡ joined (split_lines a) b
unfolding split_lines
split_lines-append [] b = refl
split_lines-append (c ∷ cs) b = elim (Bool-cases (nat_beq c 10)) [
  | inl e ↦ rw e (ap end_line (split_lines-append cs b))
  | inr e ↦
      rw e (ap (add_char c) (split_lines-append cs b) ∙ add_char-joined c (split_lines cs) b e)
]

add_char-rest :
    (c : ℕ) (x : List (List ℕ) × List ℕ)
    → nat_beq c 10 ≡ false
    → split_lines x.1 ≡ ([], x.1)
    → split_lines (add_char c x).1 ≡ ([], (add_char c x).1)
unfolding split_lines
add_char-rest c ([], rest) e h = rw e (ap (add_char c) h)
add_char-rest c (line ∷ lines, rest) e h = h

-- What stands behind the last line end has none.
pub split_lines-rest : (a : List ℕ) → split_lines (split_lines a).1 ≡ ([], (split_lines a).1)
unfolding split_lines
split_lines-rest [] = refl
split_lines-rest (c ∷ cs) = elim (Bool-cases (nat_beq c 10)) [
  | inl e ↦ rw e (split_lines-rest cs)
  | inr e ↦ rw e (add_char-rest c (split_lines cs) e (split_lines-rest cs))
]

add_char-lines :
    (c : ℕ) (x : List (List ℕ) × List ℕ) (later : List (List ℕ)) (last : List ℕ)
    → add_char c ((x.0 ++ x.1 ∷ []) ++ later, last)
      ≡ (((add_char c x).0 ++ (add_char c x).1 ∷ []) ++ later, last)
add_char-lines c ([], rest) later last = refl
add_char-lines c (line ∷ lines, rest) later last = refl

split_lines-joined :
    (a b : List ℕ)
    → split_lines (a ++ 10 ∷ b) ≡ (all_lines a ++ (split_lines b).0, (split_lines b).1)
unfolding split_lines
split_lines-joined [] b = refl
split_lines-joined (c ∷ cs) b = elim (Bool-cases (nat_beq c 10)) [
  | inl e ↦ rw e (ap end_line (split_lines-joined cs b))
  | inr e ↦ rw e (
      ap (add_char c) (split_lines-joined cs b)
      ∙ add_char-lines c (split_lines cs) (split_lines b).0 (split_lines b).1)
]

-- The lines of two texts with a line end between them.
pub all_lines-append : (a b : List ℕ) → all_lines (a ++ 10 ∷ b) ≡ all_lines a ++ all_lines b
all_lines-append a b =
    ap (λ x. x.0 ++ x.1 ∷ []) (split_lines-joined a b)
    ∙ append_assoc (all_lines a) (split_lines b).0 ((split_lines b).1 ∷ [])
