-- ===== src/Alert/Control.antt =====
-- internal/agent/alert/alert.go: the band that a rule is evaluated against.
pub mod Derived
use poolpilot_relay.Prelude.{
  List, Map, Option, String, [], if◌then◌else◌, lookup, none, some, ◌&&◌, ◌==◌, ◌||◌, ◌∷◌,
}
use poolpilot_relay.Bands.{
  BandsConfig, banded, is_monotonic, severity_at, type_chlorine, type_orp, type_ph,
}
use poolpilot_relay.Go.Float64.{Float64, f_fifth, f_half, f_seventy_five, f_zero, fle, flt}
use poolpilot_relay.Measure.{ControlConfig, Reading}
use poolpilot_relay.Wire.Alerts.{AlertRule, kind_measurement_band}

-- `DefaultOkTolerance[t]`: zero for a type that the map lacks.
unfoldable pub default_ok_tolerance : String → Float64
default_ok_tolerance t =
    if type_ph == t
    then f_fifth
    else if type_orp == t
    then f_seventy_five
    else if type_chlorine == t
    then f_half
    else f_zero

unfoldable pub tolerance_for : AlertRule → Float64
tolerance_for rule =
    if flt f_zero rule.ok_tolerance
    then rule.ok_tolerance
    else default_ok_tolerance rule.measurement_type

-- The OK zone clamped inside the limits, and the config if it validates.
unfoldable pub clamped_bands : ControlConfig → Float64 → Float64 → Option BandsConfig
clamped_bands cc ok_min ok_max =
    let cfg : BandsConfig = record {
      min = cc.min;
      ok_min = (if flt ok_min cc.min then cc.min else ok_min);
      ok_max = (if flt cc.max ok_max then cc.max else ok_max);
      max = cc.max;
    } in
    if is_monotonic cfg then some cfg else none

-- `fadd` and `fsub` are the machine's sum and difference of floats.
module _ (fadd fsub : Float64 → Float64 → Float64) where
  unfoldable pub bands_from_control : ControlConfig → Float64 → Option BandsConfig
  bands_from_control cc tol =
      if cc.unbanded || fle cc.max cc.min
      then none
      else if cc.has_ok_zone
      then clamped_bands cc cc.ok_low cc.ok_high
      else if fle tol f_zero
      then none
      else clamped_bands cc (fsub cc.target tol) (fadd cc.target tol)

  unfoldable pub effective_bands : AlertRule → Map ControlConfig → Option BandsConfig
  effective_bands rule control = elim rule.bands [
    | some cfg ↦ some cfg
    | none ↦ elim (lookup rule.measurement_type control) [
      | none ↦ none
      | some cc ↦ bands_from_control cc (tolerance_for rule)
    ]
  ]

  unfoldable pub effective_severity : List AlertRule → Map ControlConfig → Reading → Option String
  effective_severity [] control r = none
  effective_severity (rule ∷ rules) control r =
      let rest = effective_severity rules control r in
      if (rule.kind == kind_measurement_band) && (rule.enabled && (rule.measurement_type == r.type))
      then elim (effective_bands rule control) [
        | none ↦ rest
        | some cfg ↦ some (severity_at (banded cfg) r.value)
      ]
      else rest
