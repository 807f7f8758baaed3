-- ===== src/Lifecycle/Answer.antt =====
-- What the watcher does with an answer: park, resume, drop, and the question itself.
use poolpilot_relay.Prelude.{
  Bool, List, Option, String, [], false, if◌then◌else◌, leb, length, none, some, true, ◌&&◌, ◌==◌,
  ◌∷◌,
}
use poolpilot_relay.Go.Int64.{add64}
use poolpilot_relay.Go.Time.{Duration, Time, add_time, zero_time}
use poolpilot_relay.Lifecycle.Watcher.{
  Watcher, active_backoff_max, active_backoff_min, clear_strikes, count_strike, idle_probe_every,
  no_signal_backoff_max, parked_backoff_max, parked_backoff_min, parked_cap, reset_backoff,
  reset_pacing, schedule, unknown_parked_backoff_max, unknown_spacing, unknown_strikes,
}
use poolpilot_relay.State.Document.{State, lifecycle_suspended, lifecycle_unknown}
use poolpilot_relay.State.Household.{paired, tunnel_parked}
use poolpilot_relay.Store.{Store, StoreError, drop_household_if, holds_token, update_if_token}
use poolpilot_relay.Wire.Status.{
  RelayStatusResponse, relay_state_active, relay_state_deleted, relay_state_suspended,
}

-- What `RelayStatus` comes back with: `cloud.ErrUnknownToken`, another error, or a response.
pub data Answer : Type 0 where
  unknown_token no_signal : Answer
  answered : RelayStatusResponse → Answer

-- What a step does outside the store: it re-applies the tunnel's config, or announces the paired
-- state.
pub data Effect : Type 0 where
  reconfigured : Effect
  announced : Bool → Effect

-- What a step meets: the clock, the cloud's answer, the tunnel's headline state, what others do to
-- the store while the question is out (`asking`) and while a bound write looks (`meanwhile`),
-- whether the file can be written and old copies removed, and the random delays.
pub record Env : Type 0 where
  pub now : Time
  pub answer : Answer
  pub tunnel_state : String
  pub asking : Store → Store
  pub meanwhile : Store → Store
  pub persists : Bool
  pub sweeps : Bool
  pub jitter : Duration → Duration
  pub idle_first : Duration
  pub idle_jitter : Duration

-- The watcher and the store that it works on, with the effects in order.
pub record World : Type 0 where
  pub watcher : Watcher
  pub store : Store
  pub effects : List Effect

-- The closures of `park` and `resume`.
unfoldable pub set_lifecycle : String → String → Time → State → State
set_lifecycle lifecycle reason since s = record s {
  cloud = (record s.cloud {
    lifecycle = lifecycle;
    lifecycle_reason = reason;
    lifecycle_since = since;
  });
}

-- The end of `park`: what follows the bound update.
unfoldable pub after_park : Watcher → Store × Bool × Option StoreError → World
after_park w (r, applied, some e) = record { watcher = w; store = r; effects = [] }
after_park w (r, false, none) = record { watcher = reset_pacing w; store = r; effects = [] }
after_park w (r, true, none) = record { watcher = w; store = r; effects = reconfigured ∷ [] }

-- The ends of `resume` and `drop`: applied, the pacing starts over.
unfoldable pub after_resume : Watcher → Store × Bool × Option StoreError → World
after_resume w (r, applied, some e) = record { watcher = w; store = r; effects = [] }
after_resume w (r, false, none) = record { watcher = reset_pacing w; store = r; effects = [] }
after_resume w (r, true, none) = record {
  watcher = reset_pacing w;
  store = r;
  effects = reconfigured ∷ [];
}

-- `ResetHousehold` and what `drop` does with its result. The announcement reads the store, which is
-- as the drop left it here.
unfoldable pub after_reset : Watcher → Store × Bool × Option StoreError → World
after_reset w (r, dropped, some e) = record { watcher = w; store = r; effects = [] }
after_reset w (r, false, none) = record { watcher = reset_pacing w; store = r; effects = [] }
after_reset w (r, true, none) = record {
  watcher = reset_pacing w;
  store = r;
  effects = reconfigured ∷ announced (paired r.doc) ∷ [];
}

module _ (env : Env) where
  unfoldable pub park : String → String → String → Watcher → Store → World
  park token lifecycle reason w st =
      after_park w (
        update_if_token token env.persists (set_lifecycle lifecycle reason env.now) env.meanwhile
          st)

  unfoldable pub resume : String → Watcher → Store → World
  resume token w st =
      after_resume w
        (update_if_token token env.persists (set_lifecycle "" "" zero_time) env.meanwhile st)

  unfoldable pub drop_answered : String → Watcher → Store → World
  drop_answered token w st =
      after_reset w (drop_household_if (holds_token token) env.persists env.sweeps env.meanwhile st)

  -- A world whose watcher is paced anew.
  unfoldable pub rescheduled : Duration → Duration → World → World
  rescheduled lo hi world = record world {
    watcher = schedule env.jitter env.now lo hi world.watcher;
  }

  unfoldable pub without_backoff : World → World
  without_backoff world = record world { watcher = reset_backoff world.watcher }

  unfoldable pub only_watcher : Watcher → Store → World
  only_watcher w st = record { watcher = w; store = st; effects = [] }

  -- `onUnknown`, for the snapshot `s` that the question was put with.
  unfoldable pub on_unknown : State → Watcher → Store → World
  on_unknown s w st =
      let struck = record w { strikes = count_strike env.now w.strikes } in
      if tunnel_parked s
      then rescheduled parked_backoff_min (parked_cap s.cloud.lifecycle) (only_watcher struck st)
      else if leb unknown_strikes (length struck.strikes)
      then rescheduled parked_backoff_min unknown_parked_backoff_max
          (without_backoff (park s.cloud.frpc_token lifecycle_unknown "" struck st))
      else only_watcher (record struck { next_ask = add_time env.now unknown_spacing }) st

  -- The answer "active".
  unfoldable pub on_active : State → Watcher → Store → World
  on_active s w st =
      if tunnel_parked s
      then resume s.cloud.frpc_token (clear_strikes w) st
      else record (rescheduled active_backoff_min active_backoff_max
          (only_watcher (clear_strikes w) st)) { effects = reconfigured ∷ [] }

  -- The answer "suspended".
  unfoldable pub on_suspended : State → String → Watcher → Store → World
  on_suspended s reason w st = rescheduled parked_backoff_min parked_backoff_max (
      if (s.cloud.lifecycle == lifecycle_suspended) && (s.cloud.lifecycle_reason == reason)
      then only_watcher (clear_strikes w) st
      else without_backoff
          (park s.cloud.frpc_token lifecycle_suspended reason (clear_strikes w) st))

  -- The `switch` on the response's state; another state is left alone.
  unfoldable pub on_response : State → RelayStatusResponse → Watcher → Store → World
  on_response s resp w st =
      if resp.state == relay_state_active
      then on_active s w st
      else if resp.state == relay_state_suspended
      then on_suspended s resp.reason w st
      else if resp.state == relay_state_deleted
      then drop_answered s.cloud.frpc_token w st
      else only_watcher w st

  -- Any error but an unknown token.
  unfoldable pub on_no_signal : State → Watcher → Store → World
  on_no_signal s w st =
      if tunnel_parked s
      then rescheduled parked_backoff_min (parked_cap s.cloud.lifecycle) (only_watcher w st)
      else rescheduled active_backoff_min no_signal_backoff_max (only_watcher w st)

  -- `ask`, with the snapshot `s`; the store is as others leave it while the question is out.
  unfoldable pub ask : State → Watcher → Store → World
  ask s w st = elim env.answer [
    | unknown_token ↦ on_unknown s w (env.asking st)
    | no_signal ↦ on_no_signal s w (env.asking st)
    | answered resp ↦ on_response s resp w (env.asking st)
  ]

  -- The `switch` of `askProbe`.
  unfoldable pub on_probe : State → RelayStatusResponse → Watcher → Store → World
  on_probe s resp w st =
      if resp.state == relay_state_deleted
      then drop_answered s.cloud.frpc_token w st
      else if resp.state == relay_state_suspended
      then rescheduled parked_backoff_min parked_backoff_max
          (without_backoff (park s.cloud.frpc_token lifecycle_suspended resp.reason w st))
      else only_watcher w st

  unfoldable pub ask_probe : State → Watcher → Store → World
  ask_probe s w st =
      let probed = record w {
        last_probe = env.now;
        next_idle_probe = add_time env.now (add64 idle_probe_every env.idle_jitter);
      } in
      elim env.answer [
        | unknown_token ↦ only_watcher probed (env.asking st)
        | no_signal ↦ only_watcher probed (env.asking st)
        | answered resp ↦ on_probe s resp probed (env.asking st)
      ]
