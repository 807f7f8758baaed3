-- ===== src/LanApi/Settings.antt =====
-- internal/agent/lanapi/lanapi.go and internal/agent/poller/poller.go: the alert rules of a
-- controller and the poll interval.
pub mod Rules
pub mod Interval
use poolpilot_relay.Prelude.{
  Bool, List, Option, String, any, if◌then◌else◌, inl, inr, is_some, map, none, not, restrict, some,
  ◌&&◌, ◌*◌, ◌==◌, ◌⊎◌,
}
use poolpilot_relay.Alert.Control.{default_ok_tolerance}
use poolpilot_relay.Alert.Rules.{validate_rules}
use poolpilot_relay.Go.Float64.{f_zero}
use poolpilot_relay.Go.Int64.{div_trunc}
use poolpilot_relay.Go.Time.{Duration, from_seconds, nanoseconds}
use poolpilot_relay.LanApi.Auth.{Reply, refused}
use poolpilot_relay.Prelude.Int.{leb_ℤ, ltb_ℤ, pos, ℤ}
use poolpilot_relay.State.Controllers.{find_controller, modify_controller}
use poolpilot_relay.State.Document.{Controller, State}
use poolpilot_relay.Store.{Store, update}
use poolpilot_relay.Wire.Alerts.{AlertRule, kind_measurement_band}

-- `setControllerRules`: the stored copy without the field that responses compute, and the state of
-- the rules that are gone.
unfoldable pub strip_rule : AlertRule → AlertRule
strip_rule r = record r { default_ok_tolerance = f_zero }

unfoldable pub set_controller_rules : List AlertRule → Controller → Controller
set_controller_rules rules c = record c {
  alert_rules = map strip_rule rules;
  alert_state = restrict (λ id. any (λ r. r.id == id) rules) c.alert_state;
}

unfoldable pub with_default_rule : AlertRule → AlertRule
with_default_rule r =
    if r.kind == kind_measurement_band
    then record r { default_ok_tolerance = default_ok_tolerance r.measurement_type }
    else record r { default_ok_tolerance = f_zero }

unfoldable pub with_default_ok_tolerance : List AlertRule → List AlertRule
unfolding with_default_rule
with_default_ok_tolerance rules = map with_default_rule rules

-- `GET /v1/controllers/{guid}/alert-rules`.
unfoldable pub get_controller_rules : String → State → Option (List AlertRule)
get_controller_rules guid s = elim (find_controller guid s.controllers) [
  | none ↦ none
  | some c ↦ some (with_default_ok_tolerance c.alert_rules)
]

-- The closure of PUT /v1/controllers/{guid}/alert-rules.
unfoldable pub replace_rules : String → List AlertRule → State → State
replace_rules guid rules s = record s {
  controllers = modify_controller guid (set_controller_rules rules) s.controllers;
}

-- The handler, for rules that decode, with the snapshot `s`.
unfoldable pub put_controller_rules :
    State → Bool → String → List AlertRule → Store → Store × (Reply ⊎ List AlertRule)
put_controller_rules s persists guid rules st =
    let (st', e) = update persists (replace_rules guid rules) st in
    if is_some (validate_rules rules)
    then (st, inl (refused 400 "invalid_rule"))
    else if not (is_some (find_controller guid s.controllers))
    then (st, inl (refused 404 "unknown_controller"))
    else if is_some e
    then (st', inl (refused 500 "persist_failed"))
    else (st', inr (with_default_ok_tolerance rules))

abbrev pub default_interval : Duration
default_interval = pos (60 * nanoseconds)

abbrev pub min_interval_seconds : ℤ
min_interval_seconds = pos 3

abbrev pub max_interval_seconds : ℤ
max_interval_seconds = pos 600

unfoldable pub valid_interval_seconds : ℤ → Bool
valid_interval_seconds s = leb_ℤ min_interval_seconds s && leb_ℤ s max_interval_seconds

unfoldable pub effective_interval : State → Duration → Duration
effective_interval s def =
    if valid_interval_seconds s.poll_interval_seconds
    then from_seconds s.poll_interval_seconds
    else if leb_ℤ def (pos 0)
    then default_interval
    else def

-- `PollIntervalResponse`.
pub record PollIntervalResponse : Type 0 where
  pub seconds : ℤ
  pub default_seconds : ℤ
  pub overridden : Bool
  pub min_seconds : ℤ
  pub max_seconds : ℤ

-- `max(1, int(d/time.Second))`.
unfoldable pub whole_seconds : Duration → ℤ
whole_seconds d = let n = div_trunc d (pos nanoseconds) in if ltb_ℤ n (pos 1) then pos 1 else n

unfoldable pub poll_interval_of : State → Duration → PollIntervalResponse
poll_interval_of s def = record {
  seconds = whole_seconds (effective_interval s def);
  default_seconds = whole_seconds def;
  overridden = valid_interval_seconds s.poll_interval_seconds;
  min_seconds = min_interval_seconds;
  max_seconds = max_interval_seconds;
}

abbrev pub set_interval : ℤ → State → State
set_interval seconds s = record s { poll_interval_seconds = seconds }

-- PUT /v1/poll-interval, `none` for a body that does not decode.
unfoldable pub put_poll_interval :
    Duration → Bool → Option ℤ → Store → Store × (Reply ⊎ PollIntervalResponse)
put_poll_interval def persists none st = (st, inl (refused 400 "bad_json"))
put_poll_interval def persists (some seconds) st =
    let (st', e) = update persists (set_interval seconds) st in
    if not (valid_interval_seconds seconds)
    then (st, inl (refused 400 "poll_interval_out_of_range"))
    else if is_some e
    then (st', inl (refused 500 "persist_failed"))
    else (st', inr (poll_interval_of st'.doc def))

-- DELETE /v1/poll-interval.
unfoldable pub delete_poll_interval :
    Duration → Bool → Store → Store × (Reply ⊎ PollIntervalResponse)
delete_poll_interval def persists st =
    let (st', e) = update persists (set_interval (pos 0)) st in
    if is_some e
    then (st', inl (refused 500 "persist_failed"))
    else (st', inr (poll_interval_of st'.doc def))
