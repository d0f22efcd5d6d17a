-- ===== src/Common/Texts.antt =====
-- Texts as the lists of their characters' codes, with the tests that the program uses.
use Prim.Native.Nat.{ℕ}
use Prim.Native.Char.{code}
use Prim.Native.String.{String}
use mathlib.Core.Bool.{Bool, true, false, ◌&&◌, ◌||◌}
use mathlib.Core.List.{List, [], ◌∷◌}
use mathlib.Core.Option.{Option, none, some}
use personas_agentes.Common.Tests.{nat_beq, leb, if◌then◌else◌}

abbrev pub codes : String → List ℕ
codes String.[] = []
codes (String.◌∷◌ c s) = code c ∷ codes s

abbrev pub codes_eq : List ℕ → List ℕ → Bool
codes_eq [] [] = true
codes_eq (x ∷ xs) (y ∷ ys) = nat_beq x y && codes_eq xs ys
codes_eq _ _ = false

-- `startsWith`, `includes` and `endsWith`.
abbrev pub starts_with : List ℕ → List ℕ → Bool
starts_with [] xs = true
starts_with (p ∷ ps) [] = false
starts_with (p ∷ ps) (x ∷ xs) = nat_beq p x && starts_with ps xs

abbrev pub includes : List ℕ → List ℕ → Bool
includes part [] = starts_with part []
includes part (x ∷ xs) = starts_with part (x ∷ xs) || includes part xs

abbrev pub ends_with : List ℕ → List ℕ → Bool
ends_with end [] = codes_eq end []
ends_with end (x ∷ xs) = codes_eq end (x ∷ xs) || ends_with end xs

-- ECMAScript's white space and line ends, by their code points.
unfoldable pub is_space : ℕ → Bool
is_space c =
    (leb 9 c && leb c 13)
    || nat_beq c 32
    || nat_beq c 160
    || nat_beq c 5760
    || (leb 8192 c && leb c 8202)
    || nat_beq c 8232
    || nat_beq c 8233
    || nat_beq c 8239
    || nat_beq c 8287
    || nat_beq c 12288
    || nat_beq c 65279

abbrev pub skip_space : List ℕ → List ℕ
skip_space [] = []
skip_space (c ∷ cs) = let rest = skip_space cs in if is_space c then rest else c ∷ cs

-- What follows a text that stands at the beginning.
abbrev pub after : List ℕ → List ℕ → Option (List ℕ)
after [] xs = some xs
after (p ∷ ps) [] = none
after (p ∷ ps) (x ∷ xs) = if nat_beq p x then after ps xs else none

abbrev pub is_nil : List ℕ → Bool
is_nil [] = true
is_nil (c ∷ cs) = false

abbrev pub drop_space : List ℕ → List ℕ
drop_space [] = []
drop_space (c ∷ cs) = let rest = drop_space cs in if is_space c && is_nil rest then [] else c ∷ rest

-- `trim`
abbrev pub trim_codes : List ℕ → List ℕ
trim_codes text = drop_space (skip_space text)
