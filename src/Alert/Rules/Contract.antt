-- ===== src/Alert/Rules/Contract.antt =====
-- Which rule sets are accepted.
use poolpilot_relay.Prelude.{
  ==_cases, All, Bool-cases, List, Option, String, [], any, arith, contains, eq_iff, false, inl,
  inr, none, refl, some, suc, sym, true, ℕ, ◌==◌, ◌↔◌, ◌∙◌, ◌∷◌, ◌≡◌, ◌≢◌, ◌⊎◌,
}
use poolpilot_relay.Alert.Control.{default_ok_tolerance}
use poolpilot_relay.Alert.Rules.{
  check_band, check_kind, check_rule, check_rules, has_invalid_bands, is_foreign_severity,
  validate_rules,
}
use poolpilot_relay.Alert.Seed.{
  append_missing, chemistry_types_for, default_band_rule, default_stale_rule, keep_rules,
  reconcile_seed, seed_defaults,
}
use poolpilot_relay.Bands.{BandsConfig, is_banded_type, is_monotonic, severity_bad, severity_warn}
use poolpilot_relay.Go.Float64.{f_zero, fle, flt, is_nan, rank}
use poolpilot_relay.Prelude.Int.{pos, ◌≤ℤ◌}
use poolpilot_relay.Preset.{violet}
use poolpilot_relay.Wire.Alerts.{AlertRule, kind_measurement_band, kind_stale_data}

-- A rule's own bands, if it has any, rise from `min` to `max`.
abbrev pub InOrder : Option BandsConfig → Type 0
InOrder none = Unit {0}
InOrder (some c) =
    (fle c.min c.ok_min ≡ true) × (fle c.ok_min c.ok_max ≡ true) × (fle c.ok_max c.max ≡ true)

-- What the contract asks of a band rule.
pub record IsBandRule (r : AlertRule) : Type 0 where
  pub known_type : is_banded_type r.measurement_type ≡ true
  pub bands_in_order : InOrder r.bands
  pub tolerance : flt r.ok_tolerance f_zero ≡ false
  pub debounced : pos 1 ≤ℤ r.debounce_polls
  pub severities : All (λ s. (s ≡ severity_warn) ⊎ (s ≡ severity_bad)) r.notify_severities

-- What the contract asks of any rule.
pub record IsValidRule (r : AlertRule) : Type 0 where
  pub named : r.id ≢ ""
  pub kind_valid :
      ((r.kind ≡ kind_measurement_band) × IsBandRule r)
      ⊎ ((r.kind ≡ kind_stale_data) × (pos 1 ≤ℤ r.stale_after_seconds))
  pub cooled : pos 1 ≤ℤ r.cooldown_seconds

-- No rule has the id of an earlier one, or one of `seen`.
abbrev pub DistinctIds : List String → List AlertRule → Type 0
DistinctIds seen [] = Unit {0}
DistinctIds seen (r ∷ rs) = (contains seen r.id ≡ false) × DistinctIds (r.id ∷ seen) rs

severities_iff :
    (xs : List String)
    → (any is_foreign_severity xs ≡ false) ↔ All (λ s. (s ≡ severity_warn) ⊎ (s ≡ severity_bad)) xs
severities_iff [] = (λ _. tt, λ _. refl)
severities_iff (x ∷ xs) =
    let ih = severities_iff xs in
    (
      λ h. (ground (arith, eq_iff x severity_warn, eq_iff x severity_bad), ih.0 (ground arith)),
      λ h. ground (arith, h, eq_iff x severity_warn, eq_iff x severity_bad, ih.1 h.1),
    )

invalid_bands_iff : (b : Option BandsConfig) → (has_invalid_bands b ≡ false) ↔ InOrder b
unfolding is_monotonic
invalid_bands_iff none = (λ _. tt, λ _. refl)
invalid_bands_iff (some c) = ground arith

check_band_iff : (r : AlertRule) → (check_band r ≡ none) ↔ IsBandRule r
unfolding check_band
check_band_iff r = (
  λ h. record {
    known_type = ground arith;
    bands_in_order = (invalid_bands_iff r.bands).0 (ground arith);
    tolerance = ground arith;
    debounced = ground arith;
    severities = (severities_iff r.notify_severities).0 (ground arith);
  },
  λ v.
      let bands = (invalid_bands_iff r.bands).1 v.bands_in_order in
      let severities = (severities_iff r.notify_severities).1 v.severities in
      ground (arith, v.known_type, v.tolerance, v.debounced, bands, severities),
)

kinds_differ : kind_measurement_band ≢ kind_stale_data
kinds_differ e = ground (arith, eq_iff kind_measurement_band kind_stale_data)

check_kind_iff :
    (r : AlertRule)
    → (check_kind r ≡ none) ↔ (
        ((r.kind ≡ kind_measurement_band) × IsBandRule r)
        ⊎ ((r.kind ≡ kind_stale_data) × (pos 1 ≤ℤ r.stale_after_seconds)))
unfolding check_kind
check_kind_iff r = elim (==_cases r.kind kind_measurement_band) [
  | inl (e, k) ↦ (
    λ h. inl (k, (check_band_iff r).0 (ground arith)),
    elim [
      | inl (_, b) ↦ rw (e, check_kind) ((check_band_iff r).1 b)
      | inr (k', _) ↦ absurd (kinds_differ (sym k ∙ k'))
    ],
  )
  | inr (e, k) ↦ (
    λ h. inr (ground (arith, eq_iff r.kind kind_stale_data)),
    elim [
      | inl (k', _) ↦ absurd (k k')
      | inr (k', b) ↦ ground (arith, e, eq_iff r.kind kind_stale_data)
    ],
  )
]

check_rule_iff :
    (i : ℕ) (seen : List String) (r : AlertRule)
    → (check_rule i seen r ≡ none) ↔ ((contains seen r.id ≡ false) × IsValidRule r)
unfolding check_rule
check_rule_iff i seen r = (
  λ h. (
    ground arith,
    record {
      named = ground (arith, eq_iff r.id "");
      kind_valid = (check_kind_iff r).0 (ground arith);
      cooled = ground arith;
    },
  ),
  λ v.
      let kind = (check_kind_iff r).1 v.1.kind_valid in
      ground (arith, kind, v.0, v.1.named, v.1.cooled, eq_iff r.id ""),
)

check_rules_iff :
    (i : ℕ) (seen : List String) (rules : List AlertRule)
    → (check_rules i seen rules ≡ none) ↔ (DistinctIds seen rules × All IsValidRule rules)
unfolding check_rules
check_rules_iff i seen [] = (λ _. (tt, tt), λ _. refl)
check_rules_iff i seen (r ∷ rs) =
    let here = check_rule_iff i seen r in
    let later = check_rules_iff (suc i) (r.id ∷ seen) rs in
    (
      λ h.
          let (d, v) = here.0 (ground arith) in
          let (ds, vs) = later.0 (ground arith) in ((d, ds), (v, vs)),
      λ h. let a = here.1 (h.0.0, h.1.0) in let b = later.1 (h.0.1, h.1.1) in ground (arith, a, b),
    )

-- A rule set is accepted exactly when no two rules share an id and every rule is named, has a
-- positive cooldown and is either a band rule of a banded type (with its own bands in order, a
-- tolerance that is not negative, a positive debounce and only the severities warn and bad) or a
-- stale-data rule with a positive age.
pub validate_rules_iff :
    (rules : List AlertRule)
    → (validate_rules rules ≡ none) ↔ (DistinctIds [] rules × All IsValidRule rules)
unfolding validate_rules
validate_rules_iff rules = check_rules_iff 0 [] rules

-- The factory rules of every preset are accepted.
pub validate_rules-seed_defaults : (p : String) → validate_rules (seed_defaults p) ≡ none
unfolding validate_rules check_rules check_rule check_kind check_band is_banded_type seed_defaults
    reconcile_seed keep_rules append_missing chemistry_types_for default_band_rule
    default_stale_rule default_ok_tolerance contains is_nan rank
validate_rules-seed_defaults p = elim (Bool-cases (p == violet)) [
  | inl e ↦ rw (e, chemistry_types_for)
  | inr e ↦ rw (e, chemistry_types_for)
]
