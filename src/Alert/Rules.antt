-- ===== src/Alert/Rules.antt =====
-- internal/agent/alert/alert.go: the contract of PUT /v1/controllers/{guid}/alert-rules. An error
-- keeps the position or id that its message names.
pub mod Contract
use poolpilot_relay.Prelude.{
  Bool, List, Option, String, [], any, contains, false, if◌then◌else◌, none, not, some, suc, ℕ,
  ◌&&◌, ◌==◌, ◌∷◌,
}
use poolpilot_relay.Bands.{BandsConfig, is_banded_type, is_monotonic, severity_bad, severity_warn}
use poolpilot_relay.Go.Float64.{f_zero, flt}
use poolpilot_relay.Prelude.Int.{leb_ℤ, pos}
use poolpilot_relay.Wire.Alerts.{AlertRule, kind_measurement_band, kind_stale_data}

pub data RuleError : Type 0 where
  id_required : ℕ → RuleError
  duplicate_id unknown_measurement_type invalid_bands : String → RuleError
  negative_tolerance debounce_not_positive notify_severity : String → RuleError
  stale_not_positive unknown_kind cooldown_not_positive : String → RuleError

-- `!=` against both severities, for some entry.
abbrev pub is_foreign_severity : String → Bool
is_foreign_severity sev = not (sev == severity_warn) && not (sev == severity_bad)

abbrev pub has_invalid_bands : Option BandsConfig → Bool
has_invalid_bands none = false
has_invalid_bands (some cfg) = not (is_monotonic cfg)

-- The case of a measurement band.
unfoldable pub check_band : AlertRule → Option RuleError
check_band r =
    if not (is_banded_type r.measurement_type)
    then some (unknown_measurement_type r.id)
    else if has_invalid_bands r.bands
    then some (invalid_bands r.id)
    else if flt r.ok_tolerance f_zero
    then some (negative_tolerance r.id)
    else if leb_ℤ r.debounce_polls (pos 0)
    then some (debounce_not_positive r.id)
    else if any is_foreign_severity r.notify_severities
    then some (notify_severity r.id)
    else none

-- The `switch` on the kind.
unfoldable pub check_kind : AlertRule → Option RuleError
check_kind r =
    if r.kind == kind_measurement_band
    then check_band r
    else if r.kind == kind_stale_data
    then (if leb_ℤ r.stale_after_seconds (pos 0) then some (stale_not_positive r.id) else none)
    else some (unknown_kind r.id)

-- The body of the loop at position `i`, with the ids seen so far.
unfoldable pub check_rule : ℕ → List String → AlertRule → Option RuleError
check_rule i seen r =
    if r.id == ""
    then some (id_required i)
    else if contains seen r.id
    then some (duplicate_id r.id)
    else elim (check_kind r) [
      | some e ↦ some e
      | none ↦ if leb_ℤ r.cooldown_seconds (pos 0) then some (cooldown_not_positive r.id) else none
    ]

unfoldable pub check_rules : ℕ → List String → List AlertRule → Option RuleError
check_rules i seen [] = none
check_rules i seen (r ∷ rs) =
    let rest = check_rules (suc i) (r.id ∷ seen) rs in
    elim (check_rule i seen r) [ some e ↦ some e | none ↦ rest ]

unfoldable pub validate_rules : List AlertRule → Option RuleError
validate_rules rules = check_rules 0 [] rules
