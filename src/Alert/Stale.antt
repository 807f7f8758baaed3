-- ===== src/Alert/Stale.antt =====
-- internal/agent/alert/alert.go: the stale-data watchdog.
pub mod Watch
use poolpilot_relay.Prelude.{
  List, Map, Option, String, [], false, if◌then◌else◌, insert, none, not, some, true, ◌&&◌, ◌++◌,
  ◌==◌, ◌∷◌,
}
use poolpilot_relay.Alert.Engine.{RuleState, ensure_state, renotify_if_due, request}
use poolpilot_relay.Alert.Evaluate.{to_list}
use poolpilot_relay.Go.Time.{Time, from_seconds, is_zero, sub_time, zero_time}
use poolpilot_relay.Prelude.Int.{ltb_ℤ}
use poolpilot_relay.Wire.Alerts.{
  AlertRequest, AlertRule, kind_stale_data, transition_enter, transition_recover,
}

abbrev pub severity_stale : String
severity_stale = "stale"

module _ (rfc3339 : Time → String) where
  -- The `switch` for one rule, with the state that it found.
  unfoldable pub step_stale :
      AlertRule → RuleState → Time → String → Time → RuleState × Option AlertRequest
  step_stale rule rs last_success guid now =
      let stale = ltb_ℤ (from_seconds rule.stale_after_seconds) (sub_time now last_success) in
      if stale && not rs.notified
      then (
        record rs {
          last_severity = severity_stale;
          notified = true;
          last_notified_at = now;
          active_since = now;
        },
        some (record (request rfc3339 rule severity_stale transition_enter now) {
          controller_guid = guid;
        }),
      )
      else if stale && rs.notified
      then (let (rs', req) = renotify_if_due rfc3339 rule rs now in
          (rs', elim req [ none ↦ none | some r ↦ some (record r { controller_guid = guid }) ]))
      else if not stale && rs.notified
      then (
        record rs {
          last_severity = "";
          notified = false;
          last_notified_at = zero_time;
          active_since = zero_time;
        },
        (if rule.notify_recovery
            then some (record (request rfc3339 rule severity_stale transition_recover now) {
              controller_guid = guid;
            })
            else none),
      )
      else (rs, none)

  -- The body of the loop.
  unfoldable pub stale_rule :
      AlertRule → Map RuleState → Time → String → Time → Map RuleState × List AlertRequest
  stale_rule rule states last_success guid now =
      let (rs, req) = step_stale rule (ensure_state states rule.id) last_success guid now in
      if (rule.kind == kind_stale_data) && rule.enabled
      then (insert rule.id rs states, to_list req)
      else (states, [])

  -- The loop, once `lastSuccess` is known.
  unfoldable pub stale_rules :
      List AlertRule → Map RuleState → Time → String → Time → Map RuleState × List AlertRequest
  stale_rules [] states last_success guid now = (states, [])
  stale_rules (rule ∷ rules) states last_success guid now =
      let (states', out) = stale_rule rule states last_success guid now in
      let (states'', more) = stale_rules rules states' last_success guid now in
      (states'', out ++ more)

  unfoldable pub evaluate_stale :
      List AlertRule → Map RuleState → Time → String → Time → Map RuleState × List AlertRequest
  evaluate_stale rules states last_success guid now =
      if is_zero last_success then (states, []) else stale_rules rules states last_success guid now
