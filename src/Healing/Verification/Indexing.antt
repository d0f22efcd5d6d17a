-- ===== src/Healing/Verification/Indexing.antt =====
-- The matcher of the second contract against the texts that its regular expression stands for.
use personas_agentes.Common.{
  codes, starts_with, after, skip_space, is_space, ℕ, zero, suc, ◌≡◌, refl, sym, ap, ◌∙◌, ◌↔◌, ◌⊎◌,
  inl, inr, Bool, true, false, ◌||◌, List, [], ◌∷◌, ◌++◌, Option, none, some, nat_beq, arith,
  Bool-cases, Option-cases, after_sound, starts_with-Starts, IsSpaces, IsFlush, skip_space-append,
  skip_space-split, subst,
}
use personas_agentes.Healing.Verification.{
  skip_nines, closes, negative_index, huge_index, unsafe_direct_indexing,
}

unfoldable pub nines : ℕ → List ℕ
nines zero = []
nines (suc n) = 57 ∷ nines n

-- White space, then a closing bracket.
pub Closes : List ℕ → Type 0
Closes text =
    (spaces : List ℕ) × (IsSpaces spaces × ((rest : List ℕ) × (text ≡ spaces ++ 93 ∷ rest)))

-- An index of -1, or of four nines or more, and what follows it.
pub BadIndex : List ℕ → Type 0
unfolding Closes
BadIndex text =
    ((rest : List ℕ) × (Closes rest × (text ≡ 45 ∷ 49 ∷ rest)))
    ⊎ ((n : ℕ) × ((rest : List ℕ) × (Closes rest × (text ≡ codes "9999" ++ (nines n ++ rest)))))

-- A text with such an index in brackets, with white space around it.
pub UnsafeIndex : List ℕ → Type 0
unfolding BadIndex
UnsafeIndex code =
    (before : List ℕ) × ((spaces : List ℕ) × (IsSpaces spaces
        × ((index : List ℕ) × (BadIndex index × (code ≡ before ++ 91 ∷ (spaces ++ index))))))

closes-Closes : (text : List ℕ) → closes text ≡ true → Closes text
unfolding closes Closes
closes-Closes text e =
    let split = skip_space-split text in
    let found = starts_with-Starts (codes "]") (skip_space text) e in
    (split.0, (split.1.0, (found.0, split.1.1 ∙ ap (λ t. split.0 ++ t) found.1)))

Closes-closes : (text : List ℕ) → Closes text → closes text ≡ true
unfolding closes Closes is_space
Closes-closes text c =
    ap (λ t. starts_with (codes "]") t)
      (ap skip_space c.1.1.1 ∙ skip_space-append c.0 (93 ∷ c.1.1.0) c.1.0 refl)

skip_nines-split : (text : List ℕ) → (n : ℕ) × (text ≡ nines n ++ skip_nines text)
unfolding nines
skip_nines-split [] = (0, refl)
skip_nines-split (c ∷ cs) = elim (Bool-cases (nat_beq c 57)) [
  | inl e ↦ let rest = skip_nines-split cs in (suc rest.0, ground (arith, e, rest.1))
  | inr e ↦ (0, rw e refl)
]

space-no_nine : (c : ℕ) → is_space c ≡ true → nat_beq c 57 ≡ false
unfolding is_space
space-no_nine c e = ground (arith, e)

-- A closing one has no nines in front.
skip_nines-Closes : (text : List ℕ) → Closes text → skip_nines text ≡ text
unfolding Closes
skip_nines-Closes text ([], (h, (rest, e))) = ap skip_nines e ∙ sym e
skip_nines-Closes text (s ∷ ss, (h, (rest, e))) = ap skip_nines e ∙ rw (space-no_nine s h.0) (sym e)

skip_nines-nines : (n : ℕ) (rest : List ℕ) → skip_nines (nines n ++ rest) ≡ skip_nines rest
unfolding nines
skip_nines-nines zero rest = refl
skip_nines-nines (suc n) rest = skip_nines-nines n rest

-- The decision of both matchers on what follows their text.
then_closes : (List ℕ → List ℕ) → Option (List ℕ) → Bool
then_closes f none = false
then_closes f (some rest) = closes (f rest)

abbrev Negative : List ℕ → Type 0
Negative text = (rest : List ℕ) × (Closes rest × (text ≡ 45 ∷ 49 ∷ rest))

abbrev Huge : List ℕ → Type 0
Huge text = (n : ℕ) × ((rest : List ℕ) × (Closes rest × (text ≡ codes "9999" ++ (nines n ++ rest))))

negative_index-Negative : (text : List ℕ) → negative_index text ≡ true → Negative text
unfolding negative_index then_closes
negative_index-Negative text e = elim (Option-cases (after (codes "-1") text)) [
  | inl a ↦ ground (arith, sym (ap (then_closes (λ r. r)) a) ∙ e)
  | inr (rest, a) ↦ (
    rest,
    (
      closes-Closes rest (sym (ap (then_closes (λ r. r)) a) ∙ e),
      after_sound (codes "-1") text rest a,
    ),
  )
]

huge_index-Huge : (text : List ℕ) → huge_index text ≡ true → Huge text
unfolding huge_index then_closes
huge_index-Huge text e = elim (Option-cases (after (codes "9999") text)) [
  | inl a ↦ ground (arith, sym (ap (then_closes skip_nines) a) ∙ e)
  | inr (rest, a) ↦
      let split = skip_nines-split rest in
      (
        split.0,
        (
          skip_nines rest,
          (
            closes-Closes (skip_nines rest) (sym (ap (then_closes skip_nines) a) ∙ e),
            after_sound (codes "9999") text rest a ∙ ap (λ t. codes "9999" ++ t) split.1,
          ),
        ),
      )
]

indexed-BadIndex : (text : List ℕ) → (negative_index text || huge_index text) ≡ true → BadIndex text
unfolding BadIndex
indexed-BadIndex text e = elim (Bool-cases (negative_index text)) [
  | inl n ↦ inl (negative_index-Negative text n)
  | inr n ↦ inr (huge_index-Huge text (ground (arith, e, n)))
]

BadIndex-indexed : (text : List ℕ) → BadIndex text → (negative_index text || huge_index text) ≡ true
unfolding BadIndex negative_index huge_index
BadIndex-indexed text (inl (rest, (c, e))) = rw e (rw (Closes-closes rest c) refl)
BadIndex-indexed text (inr (n, (rest, (c, e)))) =
    rw e (rw (skip_nines-nines n rest, skip_nines-Closes rest c, Closes-closes rest c) refl)

BadIndex-IsFlush : (text : List ℕ) → BadIndex text → IsFlush text
unfolding BadIndex is_space
BadIndex-IsFlush text (inl (rest, (c, e))) = rw e refl
BadIndex-IsFlush text (inr (n, (rest, (c, e)))) = rw e refl

unsafe-UnsafeIndex : (code : List ℕ) → unsafe_direct_indexing code ≡ true → UnsafeIndex code
unfolding unsafe_direct_indexing UnsafeIndex
unsafe-UnsafeIndex [] e = ground (arith, e)
unsafe-UnsafeIndex (c ∷ cs) e = elim (Bool-cases (unsafe_direct_indexing cs)) [
  | inl later ↦
      let found = unsafe-UnsafeIndex cs later in
      (
        c ∷ found.0,
        (
          found.1.0,
          (found.1.1.0, (found.1.1.1.0, (found.1.1.1.1.0, ap (λ t. c ∷ t) found.1.1.1.1.1))),
        ),
      )
  | inr off ↦
      let here : (c ≡ 91)
          × ((negative_index (skip_space cs) || huge_index (skip_space cs)) ≡ true) =
        ground (arith, e, off) in
      let split = skip_space-split cs in
      (
        [],
        (
          split.0,
          (
            split.1.0,
            (
              skip_space cs,
              (indexed-BadIndex (skip_space cs) here.1, ground (arith, here.0, split.1.1)),
            ),
          ),
        ),
      )
]

UnsafeIndex-unsafe :
    (before spaces index : List ℕ)
    → IsSpaces spaces
    → BadIndex index
    → unsafe_direct_indexing (before ++ 91 ∷ (spaces ++ index)) ≡ true
unfolding unsafe_direct_indexing
UnsafeIndex-unsafe [] spaces index h b =
    rw (skip_space-append spaces index h (BadIndex-IsFlush index b), BadIndex-indexed index b) refl
UnsafeIndex-unsafe (c ∷ cs) spaces index h b =
    rw (UnsafeIndex-unsafe cs spaces index h b) (ground arith)

-- The matcher finds exactly the texts with an index of -1, or of nines only and four of them or
-- more, in brackets.
pub unsafe_direct_indexing_iff :
    (code : List ℕ) → (unsafe_direct_indexing code ≡ true) ↔ UnsafeIndex code
unfolding UnsafeIndex
unsafe_direct_indexing_iff code = (
  unsafe-UnsafeIndex code,
  λ u.
      subst (λ t. unsafe_direct_indexing t ≡ true) (sym u.1.1.1.1.1)
        (UnsafeIndex-unsafe u.0 u.1.0 u.1.1.1.0 u.1.1.0 u.1.1.1.1.0),
)
