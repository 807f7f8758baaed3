-- ===== src/Alert/Engine.antt =====
-- internal/agent/alert/rulestate.go and the helpers of alert.go that every evaluation uses.
use poolpilot_relay.Prelude.{
  Bool, List, Map, Option, String, [], false, if◌then◌else◌, lookup, none, not, some, ◌==◌, ◌||◌,
  ◌∷◌,
}
use poolpilot_relay.Go.Float64.{f_zero}
use poolpilot_relay.Go.Time.{Time, from_seconds, is_zero, sub_time, zero_time}
use poolpilot_relay.Measure.{Reading}
use poolpilot_relay.Prelude.Int.{leb_ℤ, ltb_ℤ, pos, ℤ}
use poolpilot_relay.Wire.Alerts.{AlertRequest, AlertRule, transition_renotify}

pub record RuleState : Type 0 where
  pub last_severity : String
  pub pending_severity : String
  pub pending_count : ℤ
  pub notified : Bool
  pub last_notified_at : Time
  pub active_since : Time

-- `&RuleState{}`.
abbrev pub fresh : RuleState
fresh = record {
  last_severity = "";
  pending_severity = "";
  pending_count = pos 0;
  notified = false;
  last_notified_at = zero_time;
  active_since = zero_time;
}

-- The state that `ensureState` returns a pointer to. Its callers write the state back.
unfoldable pub ensure_state : Map RuleState → String → RuleState
ensure_state states id = elim (lookup id states) [ none ↦ fresh | some rs ↦ rs ]

unfoldable pub find_reading : List Reading → String → Option Reading
find_reading [] type = none
find_reading (r ∷ rs) type = if r.type == type then some r else find_reading rs type

-- `rfc3339` is the formatting of package time.
module _ (rfc3339 : Time → String) where
  unfoldable pub request : AlertRule → String → String → Time → AlertRequest
  request rule severity transition now = record {
    controller_guid = "";
    rule_id = rule.id;
    kind = rule.kind;
    measurement_type = rule.measurement_type;
    severity = severity;
    transition = transition;
    value = f_zero;
    unit = "";
    label = "";
    pool_label = "";
    occurred_at = rfc3339 now;
  }

  unfoldable pub renotify_if_due : AlertRule → RuleState → Time → RuleState × Option AlertRequest
  renotify_if_due rule rs now =
      let cooldown = from_seconds rule.cooldown_seconds in
      if not rs.notified || is_zero rs.last_notified_at
      then (rs, none)
      else if leb_ℤ cooldown (pos 0) || ltb_ℤ (sub_time now rs.last_notified_at) cooldown
      then (rs, none)
      else (
        record rs { last_notified_at = now },
        some (request rule rs.last_severity transition_renotify now),
      )
