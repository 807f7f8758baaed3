-- ===== src/Alert/Seed/Contract.antt =====
-- The contract of reconciling a rule set with a preset.
use mathlib.Core.List.{append-nil}
use poolpilot_relay.Prelude.{
  Bool, Bool-cases, List, String, [], all, any, any-append, ap, arith, contains, eq_iff, false,
  filter, filter-append, if◌then◌else◌, inl, inr, not, refl, true, ◌++◌, ◌==◌, ◌||◌, ◌∙◌, ◌∷◌, ◌≡◌,
}
use poolpilot_relay.Alert.Seed.{
  append_missing, chemistry_types_for, default_band_rule, default_stale_rule, keep_rules,
  reconcile_seed, source_default,
}
use poolpilot_relay.Alert.Seed.Reconciled.{
  covers, inapplicable_lem, inapplicable_watchdog, is_inapplicable, is_watchdog, keep_rules-filter,
  keep_rules-present, keep_rules-watchdog,
}
use poolpilot_relay.Preset.{violet}
use poolpilot_relay.Wire.Alerts.{AlertRule}

-- A rule set in line with the types that are measured.
pub record IsReconciled (types : List String) (rules : List AlertRule) : Type 0 where
  pub applicable : any (is_inapplicable types) rules ≡ false
  pub watched : any is_watchdog rules ≡ true
  pub covered : (t : String) → contains types t ≡ true → any (covers t) rules ≡ true

any_of_none :
    (types : List String) (rules : List AlertRule)
    → any (is_inapplicable types) rules ≡ false
    → filter (λ r. not (is_inapplicable types r)) rules ≡ rules
any_of_none types [] h = refl
any_of_none types (r ∷ rs) h = ground (arith, any_of_none types rs)

filter_none :
    (types : List String) (rules : List AlertRule)
    → any (is_inapplicable types) (filter (λ r. not (is_inapplicable types r)) rules) ≡ false
filter_none types [] = refl
filter_none types (r ∷ rs) = ground (arith, filter_none types rs)

-- Nor a watchdog.
filter_watchdog :
    (types : List String) (rules : List AlertRule)
    → any is_watchdog (filter (λ r. not (is_inapplicable types r)) rules) ≡ any is_watchdog rules
filter_watchdog types [] = refl
filter_watchdog types (r ∷ rs) = elim (Bool-cases (is_inapplicable types r)) [
  | inl e ↦ rw (e, inapplicable_watchdog types r e) (filter_watchdog types rs)
  | inr e ↦ rw e (ap (◌||◌ (is_watchdog r)) (filter_watchdog types rs))
]

-- Pruning loses no cover of a measured type.
filter-covers :
    (types : List String) (rules : List AlertRule) (t : String)
    → contains types t ≡ true
    → any (covers t) (filter (λ r. not (is_inapplicable types r)) rules) ≡ any (covers t) rules
filter-covers types [] t m = refl
filter-covers types (r ∷ rs) t m = elim (Bool-cases (is_inapplicable types r)) [
  | inl e ↦ rw (e, (inapplicable_lem types r t e m).1) (filter-covers types rs t m)
  | inr e ↦ rw e (ap (◌||◌ (covers t r)) (filter-covers types rs t m))
]

append_missing-covers :
    (ts present : List String) (t : String)
    → contains ts t ≡ true
    → (contains present t || any (covers t) (append_missing ts present)) ≡ true
unfolding append_missing default_band_rule contains
append_missing-covers [] present t m = cc
append_missing-covers (u ∷ ts) present t m =
    ground (arith, eq_iff u t, append_missing-covers ts present t)

append_missing-applicable :
    (types ts present : List String)
    → all (contains types) ts ≡ true
    → any (is_inapplicable types) (append_missing ts present) ≡ false
unfolding append_missing default_band_rule
append_missing-applicable types [] present h = refl
append_missing-applicable types (t ∷ ts) present h =
    ground (arith, append_missing-applicable types ts present)

append_missing-nil :
    (ts present : List String) → all (contains present) ts ≡ true → append_missing ts present ≡ []
unfolding append_missing
append_missing-nil [] present h = refl
append_missing-nil (t ∷ ts) present h = ground (arith, append_missing-nil ts present)

types_measured :
    (p : String) → all (contains (chemistry_types_for p)) (chemistry_types_for p) ≡ true
unfolding chemistry_types_for contains
types_measured p = elim (Bool-cases (p == violet)) [
  | inl e ↦ rw (e, chemistry_types_for)
  | inr e ↦ rw (e, chemistry_types_for)
]

all_transfer :
    (types ts present : List String)
    → all (contains types) ts ≡ true
    → ((t : String) → contains types t ≡ true → contains present t ≡ true)
    → all (contains present) ts ≡ true
all_transfer types [] present h f = refl
all_transfer types (t ∷ ts) present h f = ground (arith, f t, all_transfer types ts present)

-- A rule that is not the factory's.
abbrev pub is_user : AlertRule → Bool
is_user r = not (r.source == source_default)

filter_user :
    (types : List String) (rules : List AlertRule)
    → filter is_user (filter (λ r. not (is_inapplicable types r)) rules) ≡ filter is_user rules
filter_user types [] = refl
filter_user types (r ∷ rs) = ground (arith, filter_user types rs)

append_missing-user : (ts present : List String) → filter is_user (append_missing ts present) ≡ []
unfolding append_missing default_band_rule
append_missing-user [] present = refl
append_missing-user (t ∷ ts) present = ground (arith, append_missing-user ts present)

module _ (rules : List AlertRule) (p : String) where
  abbrev types : List String
  types = chemistry_types_for p

  abbrev loop : List AlertRule × List String × Bool
  loop = keep_rules types rules [] false

  abbrev watchdog_rules : List AlertRule
  watchdog_rules = if loop.2 then [] else default_stale_rule ∷ []

  any-reconcile_seed :
      (q : AlertRule → Bool)
      → any q (reconcile_seed rules p)
        ≡ (any q loop.0 || (any q (append_missing types loop.1) || any q watchdog_rules))
  unfolding reconcile_seed
  any-reconcile_seed q =
      any-append q loop.0 (append_missing types loop.1 ++ watchdog_rules)
      ∙ ap (◌||◌ (any q loop.0)) (any-append q (append_missing types loop.1) watchdog_rules)

  kept_applicable : any (is_inapplicable types) loop.0 ≡ false
  kept_applicable = rw (keep_rules-filter types rules [] false) (filter_none types rules)

  covered_somewhere :
      (t : String)
      → contains types t ≡ true
      → (any (covers t) loop.0 || any (covers t) (append_missing types loop.1)) ≡ true
  unfolding contains
  covered_somewhere t m =
      let kept =
        ap (any (covers t)) (keep_rules-filter types rules [] false)
        ∙ filter-covers types rules t m in
      ground (
        arith,
        kept,
        keep_rules-present types rules [] false t m,
        append_missing-covers types loop.1 t m,
      )

  -- Reconciling a rule set with a preset leaves no default band rule of a type that the preset
  -- does not measure, a band rule for every type that it measures, and a stale-data watchdog.
  pub reconcile_seed-IsReconciled : IsReconciled types (reconcile_seed rules p)
  unfolding default_stale_rule
  reconcile_seed-IsReconciled = record {
    applicable =
        any-reconcile_seed (is_inapplicable types)
        ∙ ground (
          arith,
          kept_applicable,
          append_missing-applicable types types loop.1 (types_measured p),
        );
    watched =
        any-reconcile_seed is_watchdog
        ∙ ground (
          arith,
          keep_rules-watchdog types rules [] false,
          ap (any is_watchdog) (keep_rules-filter types rules [] false),
          filter_watchdog types rules,
        );
    covered = λ t m. any-reconcile_seed (covers t) ∙ ground (arith, covered_somewhere t m);
  }

  -- A rule set that is in line with a preset is left as it is.
  IsReconciled-reconcile_seed : IsReconciled types rules → reconcile_seed rules p ≡ rules
  unfolding reconcile_seed
  IsReconciled-reconcile_seed r =
      let kept = keep_rules-filter types rules [] false ∙ any_of_none types rules r.applicable in
      let none_missing = append_missing-nil types loop.1 (
        all_transfer types types loop.1 (types_measured p)
          (λ t m. keep_rules-present types rules [] false t m ∙ ground (arith, r.covered t m))) in
      ground (
        arith,
        kept,
        none_missing,
        keep_rules-watchdog types rules [] false,
        r.watched,
        append-nil rules,
      )

  -- Reconciling neither adds, drops, changes nor reorders a rule that is not the factory's.
  pub reconcile_seed-user : filter is_user (reconcile_seed rules p) ≡ filter is_user rules
  unfolding reconcile_seed default_stale_rule
  reconcile_seed-user =
      filter-append is_user loop.0 (append_missing types loop.1 ++ watchdog_rules)
      ∙ ground (
        arith,
        ap (filter is_user) (keep_rules-filter types rules [] false),
        filter_user types rules,
        filter-append is_user (append_missing types loop.1) watchdog_rules,
        append_missing-user types loop.1,
        append-nil (filter is_user rules),
      )

-- Reconciling a second time with the same preset changes nothing.
pub reconcile_seed_idem :
    (rules : List AlertRule) (p : String)
    → reconcile_seed (reconcile_seed rules p) p ≡ reconcile_seed rules p
reconcile_seed_idem rules p =
    IsReconciled-reconcile_seed (reconcile_seed rules p) p (reconcile_seed-IsReconciled rules p)
