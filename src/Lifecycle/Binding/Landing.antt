-- ===== src/Lifecycle/Binding/Landing.antt =====
-- The landing of each kind of answer, and of a step.
use poolpilot_relay.Prelude.{
  Bool, String, ap, arith, eq_iff, false, if◌then◌else◌, leb, length, not, refl, true, ◌&&◌, ◌==◌,
  ◌||◌, ◌∙◌, ◌≡◌,
}
use poolpilot_relay.Go.Int64.{add64}
use poolpilot_relay.Go.Time.{add_time, before, is_zero, sub_time}
use poolpilot_relay.Lifecycle.Answer.{
  Answer, Env, World, answered, ask, ask_probe, no_signal, on_active, on_no_signal, on_probe,
  on_response, on_suspended, on_unknown, only_watcher, rescheduled, unknown_token, without_backoff,
}
use poolpilot_relay.Lifecycle.Binding.{
  Landed, drop-Landed, is_deleted, park-Landed, resume-Landed, untouched, waited,
}
use poolpilot_relay.Lifecycle.Steps.{step, step_down, step_from, step_idle}
use poolpilot_relay.Lifecycle.Watcher.{
  Watcher, clear_strikes, count_strike, down_grace, has_tunnel, idle_probe_due, idle_probe_every,
  reset_pacing, unknown_strikes,
}
use poolpilot_relay.Prelude.Int.{ltb_ℤ}
use poolpilot_relay.State.Document.{State, lifecycle_suspended, lifecycle_unknown}
use poolpilot_relay.State.Household.{enrolled, tunnel_parked}
use poolpilot_relay.Store.{Store}
use poolpilot_relay.Wire.Status.{
  RelayStatusResponse, relay_state_active, relay_state_deleted, relay_state_suspended,
}

module _ (env : Env) (s : State) (st : Store) where
  abbrev token : String
  token = s.cloud.frpc_token

  abbrev there : Store
  there = env.asking st

  abbrev LandsHere : World → Type 0
  LandsHere world = Landed env token st world.store

  branch-Landed :
      (b : Bool) (x y : World)
      → (b ≡ true → LandsHere x)
      → (b ≡ false → LandsHere y)
      → LandsHere (if b then x else y)
  branch-Landed true x y f g = f refl
  branch-Landed false x y f g = g refl

  on_unknown-Landed :
      (w : Watcher) → is_deleted env.answer ≡ false → LandsHere (on_unknown env s w there)
  unfolding on_unknown rescheduled without_backoff only_watcher
  on_unknown-Landed w alive =
      branch-Landed (tunnel_parked s) _ _ (λ _. waited refl)
        (λ _.
          branch-Landed (leb unknown_strikes (length (count_strike env.now w.strikes))) _ _
            (λ _.
              park-Landed env token st lifecycle_unknown ""
                (record w { strikes = count_strike env.now w.strikes }) alive)
            (λ _. waited refl))

  on_active-Landed :
      (w : Watcher) → is_deleted env.answer ≡ false → LandsHere (on_active env s w there)
  unfolding on_active rescheduled only_watcher
  on_active-Landed w alive =
      branch-Landed (tunnel_parked s) _ _ (λ _. resume-Landed env token st (clear_strikes w) alive)
        (λ _. waited refl)

  on_suspended-Landed :
      (reason : String) (w : Watcher)
      → is_deleted env.answer ≡ false
      → LandsHere (on_suspended env s reason w there)
  unfolding on_suspended rescheduled without_backoff only_watcher
  on_suspended-Landed reason w alive =
      branch-Landed
        ((s.cloud.lifecycle == lifecycle_suspended) && (s.cloud.lifecycle_reason == reason)) _ _
        (λ _. waited refl)
        (λ _. park-Landed env token st lifecycle_suspended reason (clear_strikes w) alive)

  on_no_signal-Landed : (w : Watcher) → LandsHere (on_no_signal env s w there)
  unfolding on_no_signal rescheduled only_watcher
  on_no_signal-Landed w = branch-Landed (tunnel_parked s) _ _ (λ _. waited refl) (λ _. waited refl)

  -- No other answer is the one of a deleted household.
  active_is_alive :
      (resp : RelayStatusResponse)
      → (resp.state == relay_state_active) ≡ true
      → (resp.state == relay_state_deleted) ≡ false
  active_is_alive resp e = ground (
    arith,
    e,
    eq_iff resp.state relay_state_active,
    eq_iff resp.state relay_state_deleted,
    eq_iff "active" "deleted",
  )

  suspended_is_alive :
      (resp : RelayStatusResponse)
      → (resp.state == relay_state_suspended) ≡ true
      → (resp.state == relay_state_deleted) ≡ false
  suspended_is_alive resp e = ground (
    arith,
    e,
    eq_iff resp.state relay_state_suspended,
    eq_iff resp.state relay_state_deleted,
    eq_iff "suspended" "deleted",
  )

  module _ (resp : RelayStatusResponse) (answer : env.answer ≡ answered resp) where
    alive_answer : (resp.state == relay_state_deleted) ≡ false → is_deleted env.answer ≡ false
    alive_answer e = ap is_deleted answer ∙ e

    dead_answer : (resp.state == relay_state_deleted) ≡ true → is_deleted env.answer ≡ true
    dead_answer e = ap is_deleted answer ∙ e

    on_response-Landed : (w : Watcher) → LandsHere (on_response env s resp w there)
    unfolding on_response only_watcher
    on_response-Landed w =
        branch-Landed (resp.state == relay_state_active) _ _
          (λ a. on_active-Landed w (alive_answer (active_is_alive resp a)))
          (λ _.
            branch-Landed (resp.state == relay_state_suspended) _ _
              (λ a. on_suspended-Landed resp.reason w (alive_answer (suspended_is_alive resp a)))
              (λ _.
                branch-Landed (resp.state == relay_state_deleted) _ _
                  (λ a. drop-Landed env token st w (dead_answer a)) (λ _. waited refl)))

    on_probe-Landed : (w : Watcher) → LandsHere (on_probe env s resp w there)
    unfolding on_probe rescheduled without_backoff only_watcher
    on_probe-Landed w =
        branch-Landed (resp.state == relay_state_deleted) _ _
          (λ a. drop-Landed env token st w (dead_answer a))
          (λ _.
            branch-Landed (resp.state == relay_state_suspended) _ _
              (λ a.
                park-Landed env token st lifecycle_suspended resp.reason w
                  (alive_answer (suspended_is_alive resp a)))
              (λ _. waited refl))

  answer-Landed :
      (w : Watcher) (a : Answer)
      → env.answer ≡ a
      → LandsHere (elim a [
        | unknown_token ↦ on_unknown env s w there
        | no_signal ↦ on_no_signal env s w there
        | answered resp ↦ on_response env s resp w there
      ])
  answer-Landed w unknown_token e = on_unknown-Landed w (ap is_deleted e)
  answer-Landed w no_signal e = on_no_signal-Landed w
  answer-Landed w (answered resp) e = on_response-Landed resp e w

  ask-Landed : (w : Watcher) → LandsHere (ask env s w st)
  unfolding ask
  ask-Landed w = answer-Landed w env.answer refl

  probed-Landed :
      (w : Watcher) (a : Answer)
      → env.answer ≡ a
      → LandsHere (elim a [
        | unknown_token ↦ only_watcher env w there
        | no_signal ↦ only_watcher env w there
        | answered resp ↦ on_probe env s resp w there
      ])
  unfolding only_watcher
  probed-Landed w unknown_token e = waited refl
  probed-Landed w no_signal e = waited refl
  probed-Landed w (answered resp) e = on_probe-Landed resp e w

  ask_probe-Landed : (w : Watcher) → LandsHere (ask_probe env s w st)
  unfolding ask_probe
  ask_probe-Landed w =
      probed-Landed
        (record w {
          last_probe = env.now;
          next_idle_probe = add_time env.now (add64 idle_probe_every env.idle_jitter);
        })
        env.answer refl

  step_idle-Landed : (w : Watcher) → LandsHere (step_idle env s w st)
  unfolding step_idle only_watcher
  step_idle-Landed w =
      let (w', due) = idle_probe_due env.idle_first env.now (reset_pacing w) in
      branch-Landed due _ _ (λ _. ask_probe-Landed w') (λ _. untouched refl)

  step_down-Landed : (w : Watcher) → LandsHere (step_down env s w st)
  unfolding step_down only_watcher
  step_down-Landed w =
      let down = record w {
        down_since = (if is_zero w.down_since then env.now else w.down_since);
      } in
      branch-Landed
        (not (ltb_ℤ (sub_time env.now down.down_since) down_grace)
          && not (before env.now down.next_ask))
        _ _ (λ _. ask-Landed down) (λ _. untouched refl)

  step_from-Landed :
      (kicked probing : Bool) (w : Watcher) → LandsHere (step_from env kicked probing s w st)
  unfolding step_from only_watcher
  step_from-Landed kicked probing w =
      branch-Landed (not (enrolled s)) _ _ (λ _. untouched refl)
        (λ _.
          branch-Landed (probing && not (tunnel_parked s)) _ _ (λ _. ask_probe-Landed w)
            (λ _.
              branch-Landed (tunnel_parked s) _ _
                (λ _.
                  branch-Landed (kicked || not (before env.now w.next_ask)) _ _ (λ _. ask-Landed w)
                    (λ _. untouched refl))
                (λ _.
                  branch-Landed (not (has_tunnel s)) _ _ (λ _. step_idle-Landed w)
                    (λ _.
                      branch-Landed (env.tunnel_state == "connected") _ _ (λ _. untouched refl)
                        (λ _. step_down-Landed w)))))

-- Whatever the control plane answers and whatever others do to the store meanwhile, a step parks,
-- resumes or drops only a document that still holds the token that the question was put with, and
-- drops the household only on the answer that it was deleted: an unknown token, no signal and every
-- other answer keep it.
pub step-Landed :
    (env : Env) (kicked : Bool) (w : Watcher) (st : Store)
    → Landed env st.doc.cloud.frpc_token st (step env kicked w st).store
unfolding step
step-Landed env kicked w st = step_from-Landed env st.doc st kicked w.probe_pending _
