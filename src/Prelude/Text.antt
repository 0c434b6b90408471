-- ===== src/Prelude/Text.antt =====
-- Texts as code points: white space and decimal numbers.
use Prim.Native.Nat.{ℕ, ◌+◌, ◌-◌, ◌*◌, ◌^◌}
use mathlib.Core.Bool.{Bool, true, false, not, ◌&&◌, ◌||◌}
use mathlib.Core.Option.{Option, none, some}
use mathlib.Core.List.{List, [], ◌∷◌}
use simbeam.Prelude.Tests.{ltb, ◌==◌, if◌then◌else◌}

-- `unicode.IsSpace`, up to U+00FF.
abbrev is_space : ℕ → Bool
is_space x = not (ltb x 9) && ltb x 14 || x == 32 || x == 133 || x == 160

abbrev pub trim_left : List ℕ → List ℕ
trim_left [] = []
trim_left (x ∷ s) = let rest = trim_left s in if is_space x then rest else x ∷ s

abbrev keep_char : ℕ → List ℕ → List ℕ
keep_char x [] = if is_space x then [] else x ∷ []
keep_char x (y ∷ s) = x ∷ y ∷ s

abbrev pub trim_right : List ℕ → List ℕ
trim_right [] = []
trim_right (x ∷ s) = keep_char x (trim_right s)

-- Decimal digits after those that gave `n`.
abbrev pub digits : ℕ → List ℕ → Option ℕ
digits n [] = if ltb n (2 ^ 63) then some n else none
digits n (x ∷ s) =
    let rest = digits (10 * n + (x - 48)) s in if not (ltb x 48) && ltb x 58 then rest else none

abbrev cons_first : ℕ → List (List ℕ) → List (List ℕ)
cons_first x [] = (x ∷ []) ∷ []
cons_first x (p ∷ parts) = (x ∷ p) ∷ parts

-- `strings.Split` at a separator of one byte.
abbrev pub split_on : ℕ → List ℕ → List (List ℕ)
split_on sep [] = [] ∷ []
split_on sep (x ∷ s) =
    let parts = split_on sep s in if x == sep then [] ∷ parts else cons_first x parts

-- `strings.CutPrefix`
abbrev after_prefix : (prefix : List ℕ) → List ℕ → Option (List ℕ)
after_prefix [] s = some s
after_prefix (x ∷ prefix) [] = none
after_prefix (x ∷ prefix) (y ∷ s) =
    let rest = after_prefix prefix s in if x == y then rest else none

-- `strings.TrimPrefix`
abbrev pub trim_prefix : (prefix : List ℕ) → List ℕ → List ℕ
trim_prefix prefix s = elim (after_prefix prefix s) [ none ↦ s | some rest ↦ rest ]

-- `strings.HasPrefix`
abbrev has_prefix : List ℕ → List ℕ → Bool
has_prefix s [] = true
has_prefix [] (p ∷ ps) = false
has_prefix (x ∷ s) (p ∷ ps) = x == p && has_prefix s ps

-- `strings.Contains`
abbrev pub contains_text : List ℕ → List ℕ → Bool
contains_text [] p = has_prefix [] p
contains_text (x ∷ s) p = has_prefix (x ∷ s) p || contains_text s p

abbrev pub same_text : List ℕ → List ℕ → Bool
same_text [] [] = true
same_text [] (p ∷ ps) = false
same_text (x ∷ s) [] = false
same_text (x ∷ s) (p ∷ ps) = x == p && same_text s ps
