-- ===== src/Plugins/Todo/Texts.antt =====
-- `String.prototype.trim`, and that it takes nothing from a text that it made.
use Prim.Native.Char.{Char, code}
use personas_agentes.Common.{
  ◌≡◌, refl, ap, ◌∙◌, inl, inr, String, Bool, true, false, ◌&&◌, if◌then◌else◌, is_space,
  Bool-cases,
}

abbrev pub is_empty : String → Bool
is_empty String.[] = true
is_empty (String.◌∷◌ c s) = false

unfoldable pub trim_start : String → String
trim_start String.[] = String.[]
trim_start (String.◌∷◌ c s) =
    let rest = trim_start s in if is_space (code c) then rest else String.◌∷◌ c s

abbrev pub put_before : Char → String → String
put_before c rest = if is_space (code c) && is_empty rest then String.[] else String.◌∷◌ c rest

unfoldable pub trim_end : String → String
trim_end String.[] = String.[]
trim_end (String.◌∷◌ c s) = put_before c (trim_end s)

unfoldable pub trim : String → String
unfolding trim_start trim_end
trim s = trim_end (trim_start s)

trim_end_idem : (s : String) → trim_end (trim_end s) ≡ trim_end s
unfolding trim_end
trim_end_idem String.[] = refl
trim_end_idem (String.◌∷◌ c s) = elim (Bool-cases (is_space (code c) && is_empty (trim_end s))) [
  | inl e ↦ rw e refl
  | inr e ↦ rw (e, trim_end_idem s, e) refl
]

-- A text whose first character is not white space, or an empty one.
abbrev IsFlush : String → Type 0
IsFlush String.[] = Unit
IsFlush (String.◌∷◌ c s) = is_space (code c) ≡ false

trim_start-IsFlush : (s : String) → IsFlush (trim_start s)
unfolding trim_start
trim_start-IsFlush String.[] = tt
trim_start-IsFlush (String.◌∷◌ c s) = elim (Bool-cases (is_space (code c))) [
  | inl e ↦ rw e (trim_start-IsFlush s)
  | inr e ↦ rw e e
]

flush_kept : (s : String) → IsFlush s → trim_start s ≡ s
unfolding trim_start
flush_kept String.[] h = refl
flush_kept (String.◌∷◌ c s) h = rw h refl

trim_end-IsFlush : (s : String) → IsFlush s → IsFlush (trim_end s)
unfolding trim_end
trim_end-IsFlush String.[] h = tt
trim_end-IsFlush (String.◌∷◌ c s) h = rw h h

pub trim_idem : (s : String) → trim (trim s) ≡ trim s
unfolding trim
trim_idem s =
    ap trim_end (
      flush_kept (trim_end (trim_start s)) (trim_end-IsFlush (trim_start s) (trim_start-IsFlush s)))
    ∙ trim_end_idem (trim_start s)
