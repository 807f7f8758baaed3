-- ===== src/Alert/Seed/Reconciled.antt =====
-- What a reconciled rule set holds.
use poolpilot_relay.Prelude.{
  Bool, Bool-cases, List, String, [], any, ap, arith, contains, eq_iff, false, filter, inl, inr,
  not, refl, true, ◌&&◌, ◌==◌, ◌||◌, ◌∙◌, ◌∷◌, ◌≡◌, ◌≢◌,
}
use poolpilot_relay.Alert.Seed.{keep_rules, mark_present, source_default}
use poolpilot_relay.Wire.Alerts.{AlertRule, kind_measurement_band, kind_stale_data}

-- A default band rule of a type that is not measured.
abbrev pub is_inapplicable : List String → AlertRule → Bool
is_inapplicable types r =
    (r.kind == kind_measurement_band)
    && ((r.source == source_default) && not (contains types r.measurement_type))

-- A band rule of the type `t`.
abbrev pub covers : String → AlertRule → Bool
covers t r = (r.kind == kind_measurement_band) && (r.measurement_type == t)

abbrev pub is_watchdog : AlertRule → Bool
is_watchdog r = r.kind == kind_stale_data

pub kinds_differ : kind_measurement_band ≢ kind_stale_data
kinds_differ e = ground (arith, eq_iff kind_measurement_band kind_stale_data)

-- A rule that is pruned is no watchdog, and covers no measured type.
pub inapplicable_lem :
    (types : List String) (r : AlertRule) (t : String)
    → is_inapplicable types r ≡ true
    → contains types t ≡ true
    → (is_watchdog r ≡ false) × (covers t r ≡ false)
inapplicable_lem types r t p m = ground (
  arith,
  eq_iff r.kind kind_measurement_band,
  eq_iff r.kind kind_stale_data,
  eq_iff r.measurement_type t,
  kinds_differ,
)

pub inapplicable_watchdog :
    (types : List String) (r : AlertRule) → is_inapplicable types r ≡ true → is_watchdog r ≡ false
inapplicable_watchdog types r p =
    ground (arith, eq_iff r.kind kind_measurement_band, eq_iff r.kind kind_stale_data, kinds_differ)

-- The results of the loop, without the loop.
pub keep_rules-filter :
    (types : List String) (rules : List AlertRule) (present : List String) (have : Bool)
    → (keep_rules types rules present have).0 ≡ filter (λ r. not (is_inapplicable types r)) rules
unfolding keep_rules
keep_rules-filter types [] present have = refl
keep_rules-filter types (r ∷ rs) present have = elim (Bool-cases (is_inapplicable types r)) [
  | inl e ↦ rw (e, keep_rules) (keep_rules-filter types rs present have)
  | inr e ↦ rw (e, keep_rules) (ap (◌∷◌ r) (keep_rules-filter types rs _ _))
]

pub keep_rules-watchdog :
    (types : List String) (rules : List AlertRule) (present : List String) (have : Bool)
    → (keep_rules types rules present have).2 ≡ (any is_watchdog rules || have)
unfolding keep_rules
keep_rules-watchdog types [] present have = refl
keep_rules-watchdog types (r ∷ rs) present have = elim (Bool-cases (is_inapplicable types r)) [
  | inl e ↦
      rw (e, keep_rules, inapplicable_watchdog types r e)
        (keep_rules-watchdog types rs present have)
  | inr e ↦ rw (e, keep_rules) (keep_rules-watchdog types rs _ _ ∙ ground arith)
]

contains-mark :
    (types : List String) (r : AlertRule) (present : List String) (t : String)
    → contains types t ≡ true
    → contains (mark_present types r present) t ≡ (covers t r || contains present t)
unfolding mark_present contains
contains-mark types r present t m = ground (arith, eq_iff r.measurement_type t)

pub keep_rules-present :
    (types : List String) (rules : List AlertRule) (present : List String) (have : Bool)
    (t : String)
    → contains types t ≡ true
    → contains (keep_rules types rules present have).1 t
      ≡ (any (covers t) rules || contains present t)
unfolding keep_rules
keep_rules-present types [] present have t m = refl
keep_rules-present types (r ∷ rs) present have t m = elim (Bool-cases (is_inapplicable types r)) [
  | inl e ↦
      rw (e, keep_rules, (inapplicable_lem types r t e m).1)
        (keep_rules-present types rs present have t m)
  | inr e ↦
      rw (e, keep_rules)
        (keep_rules-present types rs _ _ t m ∙ ground (arith, contains-mark types r present t m))
]
