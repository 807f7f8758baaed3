-- ===== src/Alert/Step.antt =====
-- internal/agent/alert/alert.go: one poll of one banded rule.
pub mod Debounce
pub mod Outcome
pub mod Spacing
use poolpilot_relay.Prelude.{
  Option, String, contains, false, if◌then◌else◌, none, some, true, ◌&&◌, ◌==◌,
}
use poolpilot_relay.Alert.Engine.{RuleState, renotify_if_due, request}
use poolpilot_relay.Bands.{severity_ok}
use poolpilot_relay.Go.Int64.{add64}
use poolpilot_relay.Go.Time.{Time, zero_time}
use poolpilot_relay.Prelude.Int.{leb_ℤ, ltb_ℤ, pos, ℤ}
use poolpilot_relay.Wire.Alerts.{AlertRequest, AlertRule, transition_enter, transition_recover}

-- The committed severity; a rule that was never evaluated stands at ok.
unfoldable pub committed : RuleState → String
committed rs = if rs.last_severity == "" then severity_ok else rs.last_severity

-- The debounce of a rule, at least one poll.
unfoldable pub debounce_of : AlertRule → ℤ
debounce_of rule = if leb_ℤ rule.debounce_polls (pos 0) then pos 1 else rule.debounce_polls

-- The pending count once `observed` differs from the committed severity.
unfoldable pub pending_count : RuleState → String → ℤ
pending_count rs observed =
    if observed == rs.pending_severity then add64 rs.pending_count (pos 1) else pos 1

module _ (rfc3339 : Time → String) where
  -- The last part of `stepBanded`: the transition is committed.
  unfoldable pub commit : AlertRule → RuleState → String → Time → RuleState × Option AlertRequest
  commit rule rs observed now =
      let settled = record rs {
        last_severity = observed;
        pending_severity = "";
        pending_count = pos 0;
      } in
      if contains rule.notify_severities observed
      then (
        record settled { notified = true; last_notified_at = now; active_since = now },
        some (request rfc3339 rule observed transition_enter now),
      )
      else (
        record settled { notified = false; last_notified_at = zero_time; active_since = zero_time },
        (if rs.notified && rule.notify_recovery
            then some (request rfc3339 rule (committed rs) transition_recover now)
            else none),
      )

  unfoldable pub step_banded :
      AlertRule → RuleState → String → Time → RuleState × Option AlertRequest
  step_banded rule rs observed now =
      let count = pending_count rs observed in
      if observed == committed rs
      then renotify_if_due rfc3339 rule (record rs { pending_severity = ""; pending_count = pos 0 })
          now
      else if ltb_ℤ count (debounce_of rule)
      then renotify_if_due rfc3339 rule
          (record rs { pending_severity = observed; pending_count = count }) now
      else commit rule rs observed now
