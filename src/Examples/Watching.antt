-- ===== src/Examples/Watching.antt =====
-- The watcher: a step that is told that the household was deleted, and the third unknown answer.
use poolpilot_relay.Prelude.{List, [], arith, false, true, ◌*◌, ◌+◌, ◌∷◌, ◌≡◌, ◌≤◌, ◌⊎◌}
use poolpilot_relay.Examples.Data.{home, hour, household}
use poolpilot_relay.Go.Time.{Time, nanoseconds}
use poolpilot_relay.Lifecycle.Answer.{Env, answered, on_unknown}
use poolpilot_relay.Lifecycle.Binding.{Landed}
use poolpilot_relay.Lifecycle.Binding.Landing.{step-Landed}
use poolpilot_relay.Lifecycle.Pacing.{IsSteady}
use poolpilot_relay.Lifecycle.Pacing.Rounds.{unknown_parks_late}
use poolpilot_relay.Lifecycle.Steps.{step}
use poolpilot_relay.Lifecycle.Watcher.{Watcher, count_strike, new_watcher}
use poolpilot_relay.Prelude.Int.{int_laws, pos}
use poolpilot_relay.State.Household.{tunnel_parked}
use poolpilot_relay.Wire.Status.{relay_state_deleted}

abbrev asked : Env
asked = record {
  now = hour 9;
  answer = answered (record { state = relay_state_deleted; reason = "" });
  tunnel_state = "connecting";
  asking = λ st. st;
  meanwhile = λ st. st;
  persists = true;
  sweeps = true;
  jitter = λ d. pos 0;
  idle_first = pos 0;
  idle_jitter = pos 0;
}

abbrev refused_twice : Watcher
refused_twice = record new_watcher { strikes = hour 8 ∷ hour 7 ∷ []; down_since = hour 6 }

refused_twice-IsSteady : IsSteady refused_twice
refused_twice-IsSteady = record {
  backoff_bounded = (omega int_laws, omega int_laws);
  strikes_spaced = (omega arith, tt);
}

step-Landed_example :
    Landed asked household.cloud.frpc_token home (step asked true refused_twice home).store
step-Landed_example = step-Landed asked true refused_twice home

unknown_parks_late_example :
    ((on_unknown asked household refused_twice home).store ≡ home)
    ⊎ ((tunnel_parked household ≡ false)
        × (newest middle oldest : Time) × (older : List Time) × (count_strike
              (hour 9)
              refused_twice.strikes
            ≡ newest ∷ middle ∷ oldest ∷ older)
        × (middle + 3600 * nanoseconds ≤ newest)
        × (oldest + 3600 * nanoseconds ≤ middle))
unknown_parks_late_example =
    unknown_parks_late asked household refused_twice home refused_twice-IsSteady
