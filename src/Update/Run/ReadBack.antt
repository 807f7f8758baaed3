-- ===== src/Update/Run/ReadBack.antt =====
-- The text of the record of the installed version.
use poolpilot_relay.Prelude.{
  Bool, List, Option-cases, [], all, arith, eqb, false, inl, inr, not, refl, some, true, ℕ, ◌++◌,
  ◌||◌, ◌∷◌, ◌≡◌, ◌≤◌,
}
use poolpilot_relay.Go.Text.{
  Text, extend, is_space, latin_space, split_on, trim_left, trim_right, trim_space,
}
use poolpilot_relay.Update.Version.{
  Version, compare_versions, component, is_digit, of_parts, parse_version, trim_v, valid_tag,
}

abbrev pub IsPlain : Text → Type 0
IsPlain s = all (λ c. not (is_space c)) s ≡ true

abbrev in_tag : ℕ → Bool
in_tag c = is_digit c || eqb c b'.'

tag_part : (p : Text) (n : ℕ) → component p ≡ some n → all is_digit p ≡ true
unfolding component
tag_part p n h = ground (arith, h)

abbrev all_digits : List Text → Bool
all_digits parts = all (λ p. all is_digit p) parts

extend_digits :
    (c : ℕ) (parts : List Text)
    → all_digits (extend c parts) ≡ true
    → (is_digit c ≡ true) × (all_digits parts ≡ true)
extend_digits c [] h = ground (arith, h)
extend_digits c (p ∷ ps) h = ground (arith, h)

parts_tag : (s : Text) → all_digits (split_on b'.' s) ≡ true → all in_tag s ≡ true
unfolding split_on
parts_tag [] h = refl
parts_tag (c ∷ s) h = ground (arith, h, parts_tag s, extend_digits c (split_on b'.' s))

digits_of_parts :
    (parts : List Text) (v : Version) → of_parts parts ≡ some v → all_digits parts ≡ true
digits_of_parts [] v h = refl
digits_of_parts (x ∷ []) v h = absurd (ground (arith, h))
digits_of_parts (x ∷ y ∷ []) v h = absurd (ground (arith, h))
digits_of_parts (x ∷ y ∷ z ∷ w ∷ more) v h = absurd (ground (arith, h))
digits_of_parts (x ∷ y ∷ z ∷ []) v h =
    ground (arith, h, tag_part x v.major, tag_part y v.minor, tag_part z v.patch)

spaceless_char : (c : ℕ) → 33 ≤ c → c ≤ 127 → is_space c ≡ false
unfolding is_space latin_space
spaceless_char c lo hi = ground (arith, lo, hi)

tag_range : (c : ℕ) → in_tag c ≡ true → (33 ≤ c) × (c ≤ 127)
unfolding is_digit
tag_range c h = ground (arith, h)

spaceless_tag : (s : Text) → all in_tag s ≡ true → IsPlain s
spaceless_tag [] h = refl
spaceless_tag (c ∷ s) h = ground (arith, h, spaceless_tag s, tag_range c, spaceless_char c)

-- A release version has no spaces.
trim_v-IsPlain : (s : Text) → IsPlain (trim_v s) → IsPlain s
trim_v-IsPlain [] h = refl
trim_v-IsPlain (c ∷ s) h = ground (arith, h, spaceless_char c)

version-IsPlain : (s : Text) (v : Version) → parse_version s ≡ some v → IsPlain s
unfolding parse_version
version-IsPlain s v h = trim_v-IsPlain s (
    spaceless_tag (trim_v s)
      (parts_tag (trim_v s) (digits_of_parts (split_on b'.' (trim_v s)) v h)))

trim_right_plain : (s : Text) → IsPlain s → trim_right (s ++ (10 ∷ [])) ≡ s
unfolding trim_right is_space latin_space
trim_right_plain [] h = refl
trim_right_plain (c ∷ s) h = ground (arith, h, trim_right_plain s)

trim_plain : (s : Text) → IsPlain s → trim_space (s ++ (10 ∷ [])) ≡ s
unfolding trim_space trim_left is_space latin_space
trim_plain [] h = unfold trim_right in refl
trim_plain (c ∷ s) h = ground (arith, h, trim_right_plain (c ∷ s) h)

-- A release version that is written to the record with a newline is read back as it is.
pub record_reads_back :
    (version : Text) → valid_tag version ≡ true → trim_space (version ++ (10 ∷ [])) ≡ version
unfolding valid_tag compare_versions
record_reads_back version h = elim (Option-cases (parse_version version)) [
  | inl e ↦ absurd (ground (arith, h, e))
  | inr (v, e) ↦ trim_plain version (version-IsPlain version v e)
]
