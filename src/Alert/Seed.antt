-- ===== src/Alert/Seed.antt =====
-- internal/agent/alert/alert.go: the factory rules, and how they are reconciled with a preset.
pub mod Reconciled
pub mod Contract
pub mod Orphans
use Prim.Native.String.{◌++◌ as str_append}
use poolpilot_relay.Prelude.{
  Bool, List, Map, String, [], any, contains, false, if◌then◌else◌, none, not, restrict, true, ◌&&◌,
  ◌++◌, ◌==◌, ◌||◌, ◌∷◌,
}
use poolpilot_relay.Alert.Control.{default_ok_tolerance}
use poolpilot_relay.Alert.Engine.{RuleState}
use poolpilot_relay.Bands.{severity_bad, type_chlorine, type_orp, type_ph}
use poolpilot_relay.Go.Float64.{f_zero}
use poolpilot_relay.Prelude.Int.{pos}
use poolpilot_relay.Preset.{violet}
use poolpilot_relay.Wire.Alerts.{AlertRule, kind_measurement_band, kind_stale_data}

abbrev pub source_default : String
source_default = "default"

unfoldable pub chemistry_types_for : String → List String
chemistry_types_for preset =
    if preset == violet then type_ph ∷ type_orp ∷ type_chlorine ∷ [] else type_ph ∷ type_orp ∷ []

-- `str_append` is the concatenation of texts, which is the language's.
unfoldable pub default_band_rule : String → AlertRule
default_band_rule t = record {
  id = str_append "default-" t;
  kind = kind_measurement_band;
  enabled = true;
  source = source_default;
  measurement_type = t;
  bands = none;
  ok_tolerance = default_ok_tolerance t;
  default_ok_tolerance = f_zero;
  notify_severities = severity_bad ∷ [];
  debounce_polls = pos 3;
  stale_after_seconds = pos 0;
  cooldown_seconds = pos 21600;
  notify_recovery = true;
}

unfoldable pub default_stale_rule : AlertRule
default_stale_rule = record {
  id = "default-stale";
  kind = kind_stale_data;
  enabled = true;
  source = source_default;
  measurement_type = "";
  bands = none;
  ok_tolerance = f_zero;
  default_ok_tolerance = f_zero;
  notify_severities = [];
  debounce_polls = pos 0;
  stale_after_seconds = pos 5400;
  cooldown_seconds = pos 86400;
  notify_recovery = true;
}

-- `present`, once a rule that is kept has been seen.
unfoldable pub mark_present : List String → AlertRule → List String → List String
mark_present types r present =
    if (r.kind == kind_measurement_band) && contains types r.measurement_type
    then r.measurement_type ∷ present
    else present

-- The loop over the rules, with `measured` as a list of types, `present` and `haveStale`: the
-- rules that it keeps, and the two at its end.
unfoldable pub keep_rules :
    List String → List AlertRule → List String → Bool → List AlertRule × List String × Bool
keep_rules types [] present have_stale = ([], present, have_stale)
keep_rules types (r ∷ rs) present have_stale =
    let pruned = keep_rules types rs present have_stale in
    let kept =
      keep_rules types rs (mark_present types r present)
        ((r.kind == kind_stale_data) || have_stale) in
    if (r.kind == kind_measurement_band)
      && ((r.source == source_default) && not (contains types r.measurement_type))
    then pruned
    else (r ∷ kept.0, kept.1, kept.2)

-- The loop over the types, which appends a rule for each that is not present.
unfoldable pub append_missing : List String → List String → List AlertRule
append_missing [] present = []
append_missing (t ∷ ts) present =
    let rest = append_missing ts present in
    if contains present t then rest else default_band_rule t ∷ rest

unfoldable pub reconcile_seed : List AlertRule → String → List AlertRule
reconcile_seed rules preset =
    let types = chemistry_types_for preset in
    let (kept, present, have_stale) = keep_rules types rules [] false in
    kept ++ (append_missing types present ++ (if have_stale then [] else default_stale_rule ∷ []))

unfoldable pub seed_defaults : String → List AlertRule
seed_defaults preset = reconcile_seed [] preset

-- The loop that deletes the states of rules that are gone; its early return on an empty map is
-- what the loop does on it.
unfoldable pub drop_orphan_state : Map RuleState → List AlertRule → Map RuleState
drop_orphan_state states rules = restrict (λ id. any (λ r. r.id == id) rules) states
