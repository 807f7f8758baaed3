-- ===== src/Lifecycle/Pacing/Rounds.antt =====
-- The pacing across a step, and the strikes behind a park.
use poolpilot_relay.Prelude.{
  Bool, Bool-cases, List, [], arith, false, if◌then◌else◌, inl, inr, leb, length, not, refl, subst,
  sym, true, ◌&&◌, ◌*◌, ◌+◌, ◌==◌, ◌||◌, ◌∷◌, ◌≡◌, ◌≤◌, ◌⊎◌,
}
use poolpilot_relay.Go.Time.{Time, before, is_zero, nanoseconds, sub_time}
use poolpilot_relay.Lifecycle.Answer.{Env, on_unknown, only_watcher, rescheduled}
use poolpilot_relay.Lifecycle.Pacing.{Backoff, IsSteady, Spaced, count_strike-Spaced}
use poolpilot_relay.Lifecycle.Pacing.Answers.{ask-IsSteady, ask_probe-IsSteady}
use poolpilot_relay.Lifecycle.Pacing.Steady.{
  SteadyWorld, branch-Steady, only_watcher-IsSteady, reset_pacing-IsSteady,
}
use poolpilot_relay.Lifecycle.Steps.{step, step_down, step_from, step_idle}
use poolpilot_relay.Lifecycle.Watcher.{
  Watcher, count_strike, down_grace, has_tunnel, idle_probe_due, reset_pacing, unknown_strikes,
}
use poolpilot_relay.Prelude.Int.{ltb_ℤ}
use poolpilot_relay.State.Document.{State}
use poolpilot_relay.State.Household.{enrolled, tunnel_parked}
use poolpilot_relay.Store.{Store}

same_pacing-IsSteady :
    (w v : Watcher) → v.backoff ≡ w.backoff → v.strikes ≡ w.strikes → IsSteady w → IsSteady v
same_pacing-IsSteady w v b s h = record {
  backoff_bounded = subst Backoff (sym b) h.backoff_bounded;
  strikes_spaced = subst Spaced (sym s) h.strikes_spaced;
}

module _ (env : Env) where
  idle_probe_due-IsSteady :
      (w : Watcher) → IsSteady w → IsSteady (idle_probe_due env.idle_first env.now w).0
  unfolding idle_probe_due
  idle_probe_due-IsSteady w h = same_pacing-IsSteady w _ (ground arith) (ground arith) h

  step_idle-IsSteady : (s : State) (w : Watcher) (st : Store) → SteadyWorld (step_idle env s w st)
  unfolding step_idle
  step_idle-IsSteady s w st =
      let (w', due) = idle_probe_due env.idle_first env.now (reset_pacing w) in
      let steady = idle_probe_due-IsSteady (reset_pacing w) (reset_pacing-IsSteady w) in
      branch-Steady env due _ _ (ask_probe-IsSteady env s w' st steady)
        (only_watcher-IsSteady env w' st steady)

  step_down-IsSteady :
      (s : State) (w : Watcher) (st : Store) → IsSteady w → SteadyWorld (step_down env s w st)
  unfolding step_down
  step_down-IsSteady s w st h =
      let down = record w {
        down_since = (if is_zero w.down_since then env.now else w.down_since);
      } in
      let steady = same_pacing-IsSteady w down refl refl h in
      branch-Steady env
        (not (ltb_ℤ (sub_time env.now down.down_since) down_grace)
          && not (before env.now down.next_ask))
        _ _ (ask-IsSteady env s down st steady) (only_watcher-IsSteady env down st steady)

  step_from-IsSteady :
      (kicked probing : Bool) (s : State) (w : Watcher) (st : Store)
      → IsSteady w
      → SteadyWorld (step_from env kicked probing s w st)
  unfolding step_from
  step_from-IsSteady kicked probing s w st h =
      let rest = only_watcher-IsSteady env (reset_pacing w) st (reset_pacing-IsSteady w) in
      branch-Steady env (not (enrolled s)) _ _ rest (
        branch-Steady env (probing && not (tunnel_parked s)) _ _ (ask_probe-IsSteady env s w st h) (
          branch-Steady env (tunnel_parked s) _ _
            (branch-Steady env (kicked || not (before env.now w.next_ask)) _ _
              (ask-IsSteady env s w st h) (only_watcher-IsSteady env w st h))
            (branch-Steady env (not (has_tunnel s)) _ _ (step_idle-IsSteady s w st) (
              branch-Steady env (env.tunnel_state == "connected") _ _ rest
                (step_down-IsSteady s w st h)))))

-- Every step, whatever is answered and whatever others do, keeps the backoff between nothing and
-- six hours and the counted strikes at least an hour apart.
pub step-IsSteady :
    (env : Env) (kicked : Bool) (w : Watcher) (st : Store)
    → IsSteady w
    → IsSteady (step env kicked w st).watcher
unfolding step SteadyWorld
step-IsSteady env kicked w st h =
    step_from-IsSteady env kicked w.probe_pending st.doc _ st
      (same_pacing-IsSteady w (record w { probe_pending = false }) refl refl h)

three_strikes :
    (strikes : List Time)
    → Spaced strikes
    → leb unknown_strikes (length strikes) ≡ true
    → (newest middle oldest : Time) × (older : List Time) × (strikes
        ≡ newest ∷ middle ∷ oldest ∷ older)
      × (middle + 3600 * nanoseconds ≤ newest)
      × (oldest + 3600 * nanoseconds ≤ middle)
three_strikes [] h e = absurd (ground arith)
three_strikes (a ∷ []) h e = absurd (ground arith)
three_strikes (a ∷ b ∷ []) h e = absurd (ground arith)
three_strikes (a ∷ b ∷ c ∷ older) (ab, (bc, h)) e = (a, b, c, older, refl, ab, bc)

-- An answer that the token is unknown leaves the store as others left it, unless the tunnel is not
-- parked and three strikes are counted, which then follow one another by at least an hour.
pub unknown_parks_late :
    (env : Env) (s : State) (w : Watcher) (st : Store)
    → IsSteady w
    → ((on_unknown env s w st).store ≡ st)
      ⊎ ((tunnel_parked s ≡ false)
          × (newest middle oldest : Time) × (older : List Time) × (count_strike env.now w.strikes
              ≡ newest ∷ middle ∷ oldest ∷ older)
          × (middle + 3600 * nanoseconds ≤ newest)
          × (oldest + 3600 * nanoseconds ≤ middle))
unfolding on_unknown rescheduled only_watcher
unknown_parks_late env s w st h = elim (Bool-cases (tunnel_parked s)) [
  | inl p ↦ rw (p, on_unknown) (inl refl)
  | inr p ↦ elim (Bool-cases (leb unknown_strikes (length (count_strike env.now w.strikes)))) [
    | inl e ↦
        let (a, b, c, older, counted, ab, bc) =
          three_strikes (count_strike env.now w.strikes)
            (count_strike-Spaced env.now w.strikes h.strikes_spaced) e in
        inr (p, a, b, c, older, counted, ab, bc)
    | inr e ↦ rw (p, on_unknown, e) (inl refl)
  ]
]
