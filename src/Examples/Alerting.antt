-- ===== src/Examples/Alerting.antt =====
-- Alerts: the debounce, what a poll pushes, the cooldown, the watchdog, and a whole evaluation.
use poolpilot_relay.Prelude.{
  All, List, Map, [], arith, contains, eq_iff, refl, ◌*◌, ◌+◌, ◌∷◌, ◌≡◌, ◌≢◌, ◌≤◌,
}
use poolpilot_relay.Alert.Engine.{renotify_if_due, request}
use poolpilot_relay.Alert.Stale.Watch.{Tick, after_ticks, enters-eq-recovers, one_if, pushed}
use poolpilot_relay.Alert.Step.{commit, committed, debounce_of, pending_count, step_banded}
use poolpilot_relay.Alert.Step.Debounce.{
  Observation, after_history, commit_needs_streak, streak, streak-commits,
}
use poolpilot_relay.Alert.Step.Outcome.{Outcome, step_banded-Outcome}
use poolpilot_relay.Alert.Step.Spacing.{alarm_times, renotify_spacing}
use poolpilot_relay.Bands.{severity_bad, severity_ok, type_ph}
use poolpilot_relay.Examples.Data.{clock, hour, ph_control, ph_rule, stale_rule_1h}
use poolpilot_relay.Go.Int64.{add64, mul64, wrap64}
use poolpilot_relay.Go.Time.{from_seconds, nanoseconds, sub_time}
use poolpilot_relay.Measure.{ControlConfig}
use poolpilot_relay.Prelude.Int.{pos, ◌*ℤ◌, ◌+ℤ◌}
use poolpilot_relay.Wire.Alerts.{
  AlertRule, transition_enter, transition_recover, transition_renotify,
}

bad_named : severity_bad ≢ ""
bad_named e = ground (arith, eq_iff "bad" "")

bad_ne_ok : severity_bad ≢ severity_ok
bad_ne_ok e = ground (arith, eq_iff "bad" "ok")

abbrev two_bad : List Observation
two_bad = (severity_bad, hour 2) ∷ (severity_bad, hour 1) ∷ []

abbrev three_bad : List Observation
three_bad = (severity_bad, hour 3) ∷ two_bad

streak-commits_example : committed (after_history clock ph_rule three_bad) ≡ severity_bad
unfolding debounce_of streak
streak-commits_example =
    streak-commits clock ph_rule 3 three_bad severity_bad refl (omega arith) (omega arith)
      (bad_named, (bad_named, (bad_named, tt))) bad_named (omega arith)

commit_needs_streak_example :
    (committed (after_history clock ph_rule three_bad) ≡ severity_bad)
    × (3 ≤ streak severity_bad three_bad)
unfolding after_history step_banded commit committed pending_count renotify_if_due debounce_of add64
    wrap64 ◌+ℤ◌ contains streak
commit_needs_streak_example =
    commit_needs_streak clock ph_rule 3 two_bad severity_bad (hour 3) refl (omega arith)
      (omega arith) (bad_named, (bad_named, (bad_named, tt))) bad_ne_ok

step_banded-Outcome_example :
    Outcome clock ph_rule
      (hour 3)
      (after_history clock ph_rule two_bad)
      (step_banded clock ph_rule (after_history clock ph_rule two_bad) severity_bad (hour 3)).0
      (step_banded clock ph_rule (after_history clock ph_rule two_bad) severity_bad (hour 3)).1
step_banded-Outcome_example =
    step_banded-Outcome clock ph_rule (hour 3) (after_history clock ph_rule two_bad) severity_bad

renotify_spacing_example :
    All (λ t. t + 21600 * nanoseconds ≤ hour 10) (alarm_times clock ph_rule three_bad)
unfolding after_history step_banded commit committed pending_count renotify_if_due debounce_of add64
    wrap64 ◌+ℤ◌ contains from_seconds mul64 ◌*ℤ◌ sub_time request
renotify_spacing_example =
    renotify_spacing clock ph_rule 21600 three_bad severity_bad (hour 10)
      (request clock ph_rule severity_bad transition_renotify (hour 10)) refl (omega arith)
      (omega arith, (omega arith, (omega arith, tt))) refl refl

abbrev ticks : List (Tick clock stale_rule_1h)
ticks = (hour 3, hour 3) ∷ (hour 0, hour 2) ∷ (hour 0, hour 0) ∷ []

enters-eq-recovers_example :
    pushed clock stale_rule_1h transition_enter "g1" ticks
    ≡ pushed clock stale_rule_1h transition_recover "g1" ticks
      + one_if clock stale_rule_1h (after_ticks clock stale_rule_1h "g1" ticks).notified
enters-eq-recovers_example = enters-eq-recovers clock stale_rule_1h "g1" ticks refl

abbrev ages : AlertRule
ages = record stale_rule_1h { stale_after_seconds = pos 10000000000 }

abbrev control : Map ControlConfig
control = (type_ph, ph_control) ∷ []
