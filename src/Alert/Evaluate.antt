-- ===== src/Alert/Evaluate.antt =====
-- internal/agent/alert/alert.go: every banded rule against one poll's readings.
pub mod Frame
use poolpilot_relay.Prelude.{
  Bool, List, Map, Option, String, [], delete, false, if◌then◌else◌, insert, is_some, lookup, map,
  none, not, some, ◌&&◌, ◌++◌, ◌==◌, ◌∷◌,
}
use poolpilot_relay.Alert.Control.{effective_bands}
use poolpilot_relay.Alert.Engine.{RuleState, ensure_state, find_reading}
use poolpilot_relay.Alert.Step.{step_banded}
use poolpilot_relay.Bands.{BandsConfig, banded, severity_at}
use poolpilot_relay.Go.Float64.{Float64}
use poolpilot_relay.Go.Time.{Time}
use poolpilot_relay.Measure.{ControlConfig, Reading}
use poolpilot_relay.Wire.Alerts.{AlertRequest, AlertRule, kind_measurement_band}

-- `control[type].Unbanded`, false for a type that the map lacks.
unfoldable pub is_unbanded : Map ControlConfig → String → Bool
is_unbanded control type = elim (lookup type control) [ none ↦ false | some cc ↦ cc.unbanded ]

-- What `Evaluate` adds to the request of `stepBanded`.
unfoldable pub stamp : String → Reading → AlertRequest → AlertRequest
stamp guid reading req = record req {
  controller_guid = guid;
  value = reading.value;
  unit = reading.unit;
  label = reading.label;
}

abbrev pub to_list {ℓ} : {A : Type ℓ} → Option A → List A
to_list none = []
to_list (some a) = a ∷ []

module _ (rfc3339 : Time → String) (fadd fsub : Float64 → Float64 → Float64) where
  -- The rest of the loop's body for a rule that has a band and a reading.
  unfoldable pub evaluate_reading :
      AlertRule
      → Map RuleState
      → Reading
      → BandsConfig
      → String
      → Time
      → Map RuleState × List AlertRequest
  evaluate_reading rule states reading cfg guid now =
      let observed = severity_at (banded cfg) reading.value in
      let (rs, req) = step_banded rfc3339 rule (ensure_state states rule.id) observed now in
      (insert rule.id rs states, map (stamp guid reading) (to_list req))

  -- The body of the loop, for a rule that the first test lets through.
  unfoldable pub evaluate_rule :
      AlertRule
      → Map RuleState
      → List Reading
      → Map ControlConfig
      → String
      → Time
      → Map RuleState × List AlertRequest
  evaluate_rule rule states readings control guid now =
      if not (is_some rule.bands) && is_unbanded control rule.measurement_type
      then (delete rule.id states, [])
      else elim (find_reading readings rule.measurement_type) [
        | none ↦ (states, [])
        | some reading ↦ elim (effective_bands fadd fsub rule control) [
          | none ↦ (states, [])
          | some cfg ↦ evaluate_reading rule states reading cfg guid now
        ]
      ]

  -- The whole body of the loop.
  unfoldable pub evaluate_one :
      AlertRule
      → Map RuleState
      → List Reading
      → Map ControlConfig
      → String
      → Time
      → Map RuleState × List AlertRequest
  evaluate_one rule states readings control guid now =
      if (rule.kind == kind_measurement_band) && rule.enabled
      then evaluate_rule rule states readings control guid now
      else (states, [])

  unfoldable pub evaluate :
      List AlertRule
      → Map RuleState
      → List Reading
      → Map ControlConfig
      → String
      → Time
      → Map RuleState × List AlertRequest
  evaluate [] states readings control guid now = (states, [])
  evaluate (rule ∷ rules) states readings control guid now =
      let (states', out) = evaluate_one rule states readings control guid now in
      let (states'', more) = evaluate rules states' readings control guid now in
      (states'', out ++ more)
