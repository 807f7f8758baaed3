-- ===== src/Update/Version.antt =====
-- internal/update/version.go: release versions.
pub mod Order
use poolpilot_relay.Prelude.{
  Bool, List, Option, [], all, eqb, false, if◌then◌else◌, is_some, leb, ltb, none, not, some, ℕ,
  ◌&&◌, ◌*◌, ◌+◌, ◌-◌, ◌∷◌,
}
use poolpilot_relay.Go.Text.{Text, is_empty, split_on}
use poolpilot_relay.Prelude.Int.{ltb_ℤ, negsuc, pos, ℤ}

pub record Version : Type 0 where
  pub major : ℕ
  pub minor : ℕ
  pub patch : ℕ

-- The largest int.
abbrev pub max_int : ℕ
max_int = 9223372036854775807

unfoldable pub is_digit : ℕ → Bool
is_digit c = leb b'0' c && leb c b'9'

-- What `strconv.Atoi` makes of digits, before its range check.
unfoldable pub digits_value : ℕ → Text → ℕ
digits_value n [] = n
digits_value n (c ∷ s) = digits_value (n * 10 + (c - b'0')) s

-- One round of the loop over the components.
unfoldable pub component : Text → Option ℕ
component p =
    if is_empty p
    then none
    else if not (all is_digit p)
    then none
    else if leb (digits_value 0 p) max_int
    then some (digits_value 0 p)
    else none

abbrev pub trim_v : Text → Text
trim_v [] = []
trim_v (c ∷ s) = if eqb c b'v' then s else c ∷ s

abbrev pub version_of : Option ℕ → Option ℕ → Option ℕ → Option Version
version_of (some x) (some y) (some z) = some (record { major = x; minor = y; patch = z })
version_of none y z = none
version_of (some x) none z = none
version_of (some x) (some y) none = none

abbrev pub of_parts : List Text → Option Version
of_parts (x ∷ y ∷ z ∷ []) = version_of (component x) (component y) (component z)
of_parts [] = none
of_parts (x ∷ []) = none
of_parts (x ∷ y ∷ []) = none
of_parts (x ∷ y ∷ z ∷ w ∷ more) = none

unfoldable pub parse_version : Text → Option Version
unfolding split_on component
parse_version s = of_parts (split_on b'.' (trim_v s))

-- The loop of `CompareVersions` over the three pairs.
unfoldable pub compare_pairs : List (ℕ × ℕ) → ℤ
compare_pairs [] = pos 0
compare_pairs ((x, y) ∷ pairs) =
    let rest = compare_pairs pairs in if ltb x y then negsuc 0 else if ltb y x then pos 1 else rest

abbrev pub compare_parsed : Option Version → Option Version → Option ℤ
compare_parsed none y = none
compare_parsed (some x) none = none
compare_parsed (some x) (some y) =
    some (compare_pairs ((x.major, y.major) ∷ (x.minor, y.minor) ∷ (x.patch, y.patch) ∷ []))

-- `CompareVersions`, `none` for an error.
unfoldable pub compare_versions : Text → Text → Option ℤ
unfolding parse_version compare_pairs
compare_versions a b = compare_parsed (parse_version a) (parse_version b)

-- `validTag` and `newer` of internal/update/helper/helper.go.
unfoldable pub valid_tag : Text → Bool
valid_tag v = is_some (compare_versions v v)

unfoldable pub newer : Text → Text → Bool
newer candidate installed = elim (compare_versions candidate installed) [
  | none ↦ false
  | some c ↦ ltb_ℤ (pos 0) c
]
