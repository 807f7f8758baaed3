-- ===== src/Go/Text.antt =====
-- Package strings, on texts as lists of code points: what the update code uses of it.
pub mod Split
use Prim.Native.Char.{code}
use poolpilot_relay.Prelude.{
  Bool, List, Option, String, [], arith, eqb, false, filter, if◌then◌else◌, leb, ltb, map, none,
  not, some, true, ℕ, ◌&&◌, ◌+◌, ◌||◌, ◌↔◌, ◌∷◌, ◌≡◌,
}

abbrev pub Text : Type 0
Text = List ℕ

abbrev pub codes : String → Text
codes String.[] = []
codes (String.◌∷◌ c s) = code c ∷ codes s

unfoldable pub same_text : Text → Text → Bool
same_text [] [] = true
same_text [] (b ∷ bs) = false
same_text (a ∷ more) [] = false
same_text (a ∷ more) (b ∷ bs) = eqb a b && same_text more bs

pub same_text_iff : (s t : Text) → (same_text s t ≡ true) ↔ (s ≡ t)
unfolding same_text
same_text_iff [] [] = ground arith
same_text_iff [] (b ∷ bs) = ground arith
same_text_iff (a ∷ more) [] = ground arith
same_text_iff (a ∷ more) (b ∷ bs) = ground (arith, same_text_iff more bs)

abbrev pub is_empty : Text → Bool
is_empty [] = true
is_empty (c ∷ s) = false

-- Puts a code point in front of the first part.
abbrev pub extend : ℕ → List Text → List Text
extend c [] = (c ∷ []) ∷ []
extend c (part ∷ parts) = (c ∷ part) ∷ parts

-- `strings.Split(s, sep)` for a separator of one ASCII character.
unfoldable pub split_on : ℕ → Text → List Text
split_on sep [] = [] ∷ []
split_on sep (c ∷ s) = let rest = split_on sep s in if eqb c sep then [] ∷ rest else extend c rest

-- `strings.CutPrefix(s, prefix)`.
unfoldable pub cut_prefix : Text → Text → Option Text
cut_prefix [] s = some s
cut_prefix (p ∷ ps) [] = none
cut_prefix (p ∷ ps) (c ∷ s) = if eqb p c then cut_prefix ps s else none

-- `unicode.IsSpace`, by Latin-1 and the rest.
unfoldable pub latin_space : ℕ → Bool
latin_space c = (leb 9 c && leb c 13) || eqb c 32 || eqb c 0x85 || eqb c 0xa0

unfoldable pub wide_space : ℕ → Bool
wide_space c =
    eqb c 0x1680
    || (leb 0x2000 c && leb c 0x200a)
    || eqb c 0x2028
    || eqb c 0x2029
    || eqb c 0x202f
    || eqb c 0x205f
    || eqb c 0x3000

unfoldable pub is_space : ℕ → Bool
is_space c = if ltb c 0x100 then latin_space c else wide_space c

-- `strings.TrimSpace`, from either end.
unfoldable pub trim_left : Text → Text
trim_left [] = []
trim_left (c ∷ s) = let rest = trim_left s in if is_space c then rest else c ∷ s

unfoldable pub trim_right : Text → Text
trim_right [] = []
trim_right (c ∷ s) = let rest = trim_right s in if is_space c && is_empty rest then [] else c ∷ rest

unfoldable pub trim_space : Text → Text
unfolding trim_left trim_right
trim_space s = trim_right (trim_left s)

-- `strings.Fields`: the runs of characters that are no spaces.
abbrev pub nonempty : List Text → List Text
nonempty parts = filter (λ p. not (is_empty p)) parts

unfoldable pub split_spaces : Text → List Text
split_spaces [] = [] ∷ []
split_spaces (c ∷ s) = let rest = split_spaces s in if is_space c then [] ∷ rest else extend c rest

unfoldable pub fields : Text → List Text
unfolding split_spaces
fields s = nonempty (split_spaces s)

-- `strings.EqualFold`, exact where one side is of ASCII digits and the letters a to f, as the hex
-- form of a hash is: no other character folds to one of those.
unfoldable pub fold_case : ℕ → ℕ
fold_case c = if leb b'A' c && leb c b'Z' then c + 32 else c

unfoldable pub equal_fold : Text → Text → Bool
unfolding fold_case same_text
equal_fold s t = same_text (map fold_case s) (map fold_case t)
