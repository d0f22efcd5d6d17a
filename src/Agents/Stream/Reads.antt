-- ===== src/Agents/Stream/Reads.antt =====
-- What the model's stream yields does not depend on the pieces in which its body arrives.
use personas_agentes.Common.{
  split_lines, split_lines-append, split_lines-rest, ℕ, ◌≡◌, refl, sym, ap, subst, ◌∙◌, inl, inr,
  true, List, [], ◌∷◌, ◌++◌, append_assoc, append-nil, All, Bool-cases, Option,
}
use personas_agentes.Agents.Stream.{Delta, is_end, line_chunks, lines_chunks, read_chunks}

abbrev pub concat : List (List ℕ) → List ℕ
concat [] = []
concat (x ∷ xs) = x ++ concat xs

module _ (parse : List ℕ → Option Delta) where
  -- No line behind the end mark yields anything.
  unfoldable pub WellEnded : List (List ℕ) → Type 0
  unfolding line_chunks
  WellEnded [] = Unit
  WellEnded (line ∷ lines) =
      (is_end line ≡ true → All (λ l. line_chunks parse l ≡ []) lines) × WellEnded lines

  quiet-nil :
      (lines : List (List ℕ))
      → All (λ l. line_chunks parse l ≡ []) lines
      → lines_chunks parse lines ≡ []
  unfolding lines_chunks
  quiet-nil [] h = refl
  quiet-nil (line ∷ lines) h = elim (Bool-cases (is_end line)) [
    | inl e ↦ rw e refl
    | inr e ↦ rw (e, h.0) (quiet-nil lines h.1)
  ]

  All-right :
      (xs ys : List (List ℕ))
      → All (λ l. line_chunks parse l ≡ []) (xs ++ ys)
      → All (λ l. line_chunks parse l ≡ []) ys
  All-right [] ys h = h
  All-right (x ∷ xs) ys h = All-right xs ys h.1

  WellEnded-right : (xs ys : List (List ℕ)) → WellEnded (xs ++ ys) → WellEnded ys
  unfolding WellEnded
  WellEnded-right [] ys h = h
  WellEnded-right (x ∷ xs) ys h = WellEnded-right xs ys h.1

  lines_chunks-append :
      (xs ys : List (List ℕ))
      → WellEnded (xs ++ ys)
      → lines_chunks parse (xs ++ ys) ≡ lines_chunks parse xs ++ lines_chunks parse ys
  unfolding WellEnded lines_chunks
  lines_chunks-append [] ys h = refl
  lines_chunks-append (x ∷ xs) ys h = elim (Bool-cases (is_end x)) [
    | inl e ↦ rw e (sym (quiet-nil ys (All-right xs ys (h.0 e))))
    | inr e ↦ rw e (
        ap (λ cs. line_chunks parse x ++ cs) (lines_chunks-append xs ys h.1)
        ∙ sym (append_assoc (line_chunks parse x) (lines_chunks parse xs) (lines_chunks parse ys)))
  ]

  read_chunks-from :
      (buffer : List ℕ) (pieces : List (List ℕ))
      → split_lines buffer ≡ ([], buffer)
      → WellEnded (split_lines (buffer ++ concat pieces)).0
      → read_chunks parse buffer pieces
        ≡ lines_chunks parse (split_lines (buffer ++ concat pieces)).0
  unfolding read_chunks lines_chunks
  read_chunks-from buffer [] b h =
      sym (
        ap (lines_chunks parse) (ap (λ t. (split_lines t).0) (append-nil buffer) ∙ ap (λ x. x.0) b))
  read_chunks-from buffer (piece ∷ pieces) b h =
      let first = split_lines (buffer ++ piece) in
      let later = split_lines (first.1 ++ concat pieces) in
      let all : (split_lines (buffer ++ (piece ++ concat pieces))).0 ≡ first.0 ++ later.0 =
        ap (λ t. (split_lines t).0) (sym (append_assoc buffer piece (concat pieces)))
        ∙ ap (λ x. x.0) (split_lines-append (buffer ++ piece) (concat pieces)) in
      let ended : WellEnded (first.0 ++ later.0) = subst WellEnded all h in
      ap (λ cs. lines_chunks parse first.0 ++ cs)
        (read_chunks-from first.1 pieces (split_lines-rest (buffer ++ piece))
          (WellEnded-right first.0 later.0 ended))
      ∙ sym (ap (lines_chunks parse) all ∙ lines_chunks-append first.0 later.0 ended)

  -- However a body is cut into reads, it yields what its complete lines yield up to the end mark,
  -- provided no line behind that yields anything.
  pub read_chunks-concat :
      (pieces : List (List ℕ))
      → WellEnded (split_lines (concat pieces)).0
      → read_chunks parse [] pieces ≡ lines_chunks parse (split_lines (concat pieces)).0
  unfolding split_lines
  read_chunks-concat pieces h = read_chunks-from [] pieces refl h
