-- ===== src/Update/Version/Order.antt =====
-- The order of release versions.
use poolpilot_relay.Prelude.{
  Bool-cases, List, Option-cases, [], ap, arith, false, if◌then◌else◌, inl, inr, ltb, none, some,
  true, ℕ, ◌*◌, ◌+◌, ◌<◌, ◌∷◌, ◌≡◌, ◌≤◌, ◌⊎◌,
}
use poolpilot_relay.Go.Text.{Text, split_on}
use poolpilot_relay.Prelude.Int.{negsuc, pos, ℤ}
use poolpilot_relay.Update.Version.{
  Version, compare_pairs, compare_versions, component, max_int, newer, of_parts, parse_version,
  trim_v, version_of,
}

abbrev pub IsBounded : Version → Type 0
IsBounded v = (v.major ≤ max_int) × (v.minor ≤ max_int) × (v.patch ≤ max_int)

component_le : (p : Text) (n : ℕ) → component p ≡ some n → n ≤ max_int
unfolding component
component_le p n h = ground (arith, h)

version_of-IsBounded :
    (p q r : Text) (v : Version)
    → version_of (component p) (component q) (component r) ≡ some v
    → IsBounded v
version_of-IsBounded p q r v h =
    ground (arith, h, component_le p v.major, component_le q v.minor, component_le r v.patch)

of_parts-IsBounded : (parts : List Text) (v : Version) → of_parts parts ≡ some v → IsBounded v
of_parts-IsBounded [] v h = absurd (ground (arith, h))
of_parts-IsBounded (x ∷ []) v h = absurd (ground (arith, h))
of_parts-IsBounded (x ∷ y ∷ []) v h = absurd (ground (arith, h))
of_parts-IsBounded (x ∷ y ∷ z ∷ []) v h = version_of-IsBounded x y z v h
of_parts-IsBounded (x ∷ y ∷ z ∷ w ∷ more) v h = absurd (ground (arith, h))

parsed-IsBounded : (s : Text) (v : Version) → parse_version s ≡ some v → IsBounded v
unfolding parse_version
parsed-IsBounded s v h = of_parts-IsBounded (split_on b'.' (trim_v s)) v h

-- A version as one number.
abbrev pub base : ℕ
base = max_int + 1

unfoldable pub weight : Version → ℕ
weight v = (v.major * base + v.minor) * base + v.patch

-- The three-way comparison of two numbers.
abbrev pub sign_of : ℕ → ℕ → ℤ
sign_of a b = if ltb a b then negsuc 0 else if ltb b a then pos 1 else pos 0

pairs-weight :
    (v w : Version)
    → IsBounded v
    → IsBounded w
    → compare_pairs ((v.major, w.major) ∷ (v.minor, w.minor) ∷ (v.patch, w.patch) ∷ [])
      ≡ sign_of (weight v) (weight w)
unfolding compare_pairs weight
pairs-weight v w hv hw = ground (arith, hv, hw)

-- Two tags compare exactly where both are release versions, and they compare as the numbers
-- major·2¹²⁶ + minor·2⁶³ + patch do.
pub compare_versions-weight :
    (a b : Text)
    → ((v w : Version)
        → parse_version a ≡ some v
        → parse_version b ≡ some w
        → compare_versions a b ≡ some (sign_of (weight v) (weight w)))
      × ((parse_version a ≡ none) ⊎ (parse_version b ≡ none) → compare_versions a b ≡ none)
unfolding compare_versions
compare_versions-weight a b = (
  λ v w p q.
      rw (p, q) (ap some (pairs-weight v w (parsed-IsBounded a v p) (parsed-IsBounded b w q))),
  λ h. ground (arith, h),
)

pub newer-weight :
    (a b : Text)
    → newer a b ≡ true
    → (v : Version) × (w : Version) × (parse_version a ≡ some v)
      × (parse_version b ≡ some w)
      × (weight w < weight v)
unfolding newer
newer-weight a b h = elim (Option-cases (parse_version a)) [
  | inl p ↦ absurd (ground (arith, h, (compare_versions-weight a b).1 (inl p)))
  | inr (v, p) ↦ elim (Option-cases (parse_version b)) [
    | inl q ↦ absurd (ground (arith, h, (compare_versions-weight a b).1 (inr q)))
    | inr (w, q) ↦ (v, w, p, q, ground (arith, h, (compare_versions-weight a b).0 v w p q))
  ]
]

weight-newer :
    (a b : Text) (v w : Version)
    → parse_version a ≡ some v
    → parse_version b ≡ some w
    → weight w < weight v
    → newer a b ≡ true
unfolding newer
weight-newer a b v w p q h = ground (arith, h, (compare_versions-weight a b).0 v w p q)

one_way : (a b : Text) → newer a b ≡ true → newer b a ≡ true → ⊥
one_way a b h k =
    let (v, w, p, q, more) = newer-weight a b h in
    let (w', v', q', p', less) = newer-weight b a k in
    let same : weight w ≡ weight w' = ground (arith, q, q') in
    let same' : weight v ≡ weight v' = ground (arith, p, p') in
    omega (arith, more, less, same, same')

-- Being newer is a strict order on tags: it chains, and it never goes both ways.
pub newer_chains :
    (a b c : Text) → newer a b ≡ true → newer b c ≡ true → (newer a c ≡ true) × (newer b a ≡ false)
newer_chains a b c h k =
    let (v, w, p, q, more) = newer-weight a b h in
    let (w', x, q', r, most) = newer-weight b c k in
    let same : weight w ≡ weight w' = ground (arith, q, q') in
    (
      weight-newer a c v x p r (omega (arith, more, most, same)),
      elim (Bool-cases (newer b a)) [ inr e ↦ e | inl e ↦ absurd (one_way a b h e) ],
    )
