-- ===== src/Lifecycle/Pacing/Answers.antt =====
-- The pacing across each kind of answer.
use poolpilot_relay.Prelude.{String, [], leb, length, ◌&&◌, ◌==◌, ◌∷◌}
use poolpilot_relay.Go.Time.{add_time}
use poolpilot_relay.Lifecycle.Answer.{
  Answer, Env, answered, ask, ask_probe, drop_answered, no_signal, on_active, on_no_signal,
  on_probe, on_response, on_suspended, on_unknown, only_watcher, park, reconfigured, rescheduled,
  resume, unknown_token, without_backoff,
}
use poolpilot_relay.Lifecycle.Pacing.{IsSteady}
use poolpilot_relay.Lifecycle.Pacing.Steady.{
  SteadyWorld, active_hi, active_lo, after_reset-IsSteady, after_resume-IsSteady,
  asked_later-IsSteady, branch-Steady, clear_strikes-IsSteady, only_watcher-IsSteady, park-IsSteady,
  parked_cap-Backoff, parked_hi, parked_lo, rescheduled-IsSteady, struck-IsSteady,
  with_effects-Steady, without_backoff-IsSteady,
}
use poolpilot_relay.Lifecycle.Watcher.{
  Watcher, active_backoff_max, active_backoff_min, clear_strikes, count_strike, unknown_spacing,
  unknown_strikes,
}
use poolpilot_relay.State.Document.{State, lifecycle_suspended, lifecycle_unknown}
use poolpilot_relay.State.Household.{tunnel_parked}
use poolpilot_relay.Store.{Store}
use poolpilot_relay.Wire.Status.{
  RelayStatusResponse, relay_state_active, relay_state_deleted, relay_state_suspended,
}

module _ (env : Env) where
  on_unknown-IsSteady :
      (s : State) (w : Watcher) (st : Store) → IsSteady w → SteadyWorld (on_unknown env s w st)
  unfolding on_unknown
  on_unknown-IsSteady s w st h =
      let struck = record w { strikes = count_strike env.now w.strikes } in
      let steady = struck-IsSteady env w h in
      branch-Steady env (tunnel_parked s) _ _
        (rescheduled-IsSteady env _ _ (only_watcher env struck st) (parked_lo env)
          (parked_cap-Backoff s.cloud.lifecycle) (only_watcher-IsSteady env struck st steady))
        (branch-Steady env (leb unknown_strikes (length struck.strikes)) _ _
          (rescheduled-IsSteady env _ _
            (without_backoff env (park env s.cloud.frpc_token lifecycle_unknown "" struck st))
            (parked_lo env) (active_hi env)
            (without_backoff-IsSteady env _
              (park-IsSteady env s.cloud.frpc_token lifecycle_unknown "" struck st steady)))
          (only_watcher-IsSteady env _ st
            (asked_later-IsSteady env struck (add_time env.now unknown_spacing) steady)))

  on_active-IsSteady :
      (s : State) (w : Watcher) (st : Store) → IsSteady w → SteadyWorld (on_active env s w st)
  unfolding on_active resume
  on_active-IsSteady s w st h =
      let cleared = clear_strikes-IsSteady w h in
      branch-Steady env (tunnel_parked s) _ _ (after_resume-IsSteady (clear_strikes w) _ cleared) (
        with_effects-Steady env
          (rescheduled env active_backoff_min active_backoff_max
            (only_watcher env (clear_strikes w) st))
          (reconfigured ∷ [])
          (rescheduled-IsSteady env _ _ (only_watcher env (clear_strikes w) st) (active_lo env)
            (active_hi env) (only_watcher-IsSteady env _ st cleared)))

  on_suspended-IsSteady :
      (s : State) (reason : String) (w : Watcher) (st : Store)
      → IsSteady w
      → SteadyWorld (on_suspended env s reason w st)
  unfolding on_suspended
  on_suspended-IsSteady s reason w st h =
      let cleared = clear_strikes-IsSteady w h in
      rescheduled-IsSteady env _ _ _ (parked_lo env) (parked_hi env) (
        branch-Steady env
          ((s.cloud.lifecycle == lifecycle_suspended) && (s.cloud.lifecycle_reason == reason)) _ _
          (only_watcher-IsSteady env _ st cleared)
          (without_backoff-IsSteady env _ (
            park-IsSteady env s.cloud.frpc_token lifecycle_suspended reason (clear_strikes w) st
              cleared)))

  on_response-IsSteady :
      (s : State) (resp : RelayStatusResponse) (w : Watcher) (st : Store)
      → IsSteady w
      → SteadyWorld (on_response env s resp w st)
  unfolding on_response drop_answered
  on_response-IsSteady s resp w st h =
      branch-Steady env (resp.state == relay_state_active) _ _ (on_active-IsSteady s w st h) (
        branch-Steady env (resp.state == relay_state_suspended) _ _
          (on_suspended-IsSteady s resp.reason w st h)
          (branch-Steady env (resp.state == relay_state_deleted) _ _ (after_reset-IsSteady w _ h)
            (only_watcher-IsSteady env w st h)))

  on_no_signal-IsSteady :
      (s : State) (w : Watcher) (st : Store) → IsSteady w → SteadyWorld (on_no_signal env s w st)
  unfolding on_no_signal
  on_no_signal-IsSteady s w st h =
      branch-Steady env (tunnel_parked s) _ _
        (rescheduled-IsSteady env _ _ (only_watcher env w st) (parked_lo env)
          (parked_cap-Backoff s.cloud.lifecycle) (only_watcher-IsSteady env w st h))
        (rescheduled-IsSteady env _ _ (only_watcher env w st) (active_lo env) (parked_hi env)
          (only_watcher-IsSteady env w st h))

  answer-IsSteady :
      (s : State) (w : Watcher) (st : Store) (a : Answer)
      → IsSteady w
      → SteadyWorld (elim a [
        | unknown_token ↦ on_unknown env s w (env.asking st)
        | no_signal ↦ on_no_signal env s w (env.asking st)
        | answered resp ↦ on_response env s resp w (env.asking st)
      ])
  answer-IsSteady s w st unknown_token h = on_unknown-IsSteady s w _ h
  answer-IsSteady s w st no_signal h = on_no_signal-IsSteady s w _ h
  answer-IsSteady s w st (answered resp) h = on_response-IsSteady s resp w _ h

  pub ask-IsSteady :
      (s : State) (w : Watcher) (st : Store) → IsSteady w → SteadyWorld (ask env s w st)
  unfolding ask
  ask-IsSteady s w st h = answer-IsSteady s w st env.answer h

  probed-IsSteady :
      (s : State) (w : Watcher) (st : Store) (a : Answer)
      → IsSteady w
      → SteadyWorld (elim a [
        | unknown_token ↦ only_watcher env w (env.asking st)
        | no_signal ↦ only_watcher env w (env.asking st)
        | answered resp ↦ on_probe env s resp w (env.asking st)
      ])
  unfolding on_probe drop_answered
  probed-IsSteady s w st unknown_token h = only_watcher-IsSteady env w _ h
  probed-IsSteady s w st no_signal h = only_watcher-IsSteady env w _ h
  probed-IsSteady s w st (answered resp) h =
      branch-Steady env (resp.state == relay_state_deleted) _ _ (after_reset-IsSteady w _ h) (
        branch-Steady env (resp.state == relay_state_suspended) _ _
          (rescheduled-IsSteady env _ _ _ (parked_lo env) (parked_hi env) (
            without_backoff-IsSteady env _
              (park-IsSteady env s.cloud.frpc_token lifecycle_suspended resp.reason w _ h)))
          (only_watcher-IsSteady env w _ h))

  pub ask_probe-IsSteady :
      (s : State) (w : Watcher) (st : Store) → IsSteady w → SteadyWorld (ask_probe env s w st)
  unfolding ask_probe
  ask_probe-IsSteady s w st h =
      probed-IsSteady s _ st env.answer
        (record { backoff_bounded = h.backoff_bounded; strikes_spaced = h.strikes_spaced })
