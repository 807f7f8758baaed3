-- ===== src/Alert/Stale/Watch.antt =====
-- What the watchdog says of the last successful poll.
use poolpilot_relay.Prelude.{
  Bool, List, Option, String, [], arith, false, if◌then◌else◌, ltb, none, some, subst, suc, true, ℕ,
  ◌*◌, ◌+◌, ◌<◌, ◌==◌, ◌∷◌, ◌≡◌, ◌≤◌,
}
use poolpilot_relay.Alert.Engine.{RuleState, fresh, renotify_if_due, request}
use poolpilot_relay.Alert.Stale.{step_stale}
use poolpilot_relay.Go.Int64.{mul64, wrap64}
use poolpilot_relay.Go.Time.{
  Time, after, before, from_seconds, max_seconds, nanoseconds, seconds-lt-sub_time, sub_time,
}
use poolpilot_relay.Prelude.Int.{ltb_ℤ, pos, ◌*ℤ◌}
use poolpilot_relay.Wire.Alerts.{
  AlertRequest, AlertRule, transition_enter, transition_recover, transition_renotify,
}

-- How one tick of the watchdog may take the memory `before` to `after`, given whether the data is
-- stale, with the transition that it pushes.
pub data Watched (rule : AlertRule) (stale : Bool) (before after : RuleState)
    : Option String → Type 0 where
  raised :
      stale ≡ true
      → before.notified ≡ false
      → after.notified ≡ true
      → Watched rule stale before after (some transition_enter)
  held :
      stale ≡ true
      → before.notified ≡ true
      → after.notified ≡ true
      → Watched rule stale before after none
  reminded :
      stale ≡ true
      → before.notified ≡ true
      → after.notified ≡ true
      → Watched rule stale before after (some transition_renotify)
  cleared :
      stale ≡ false
      → before.notified ≡ true
      → rule.notify_recovery ≡ true
      → after.notified ≡ false
      → Watched rule stale before after (some transition_recover)
  dropped :
      stale ≡ false
      → before.notified ≡ true
      → rule.notify_recovery ≡ false
      → after.notified ≡ false
      → Watched rule stale before after none
  at_rest :
      stale ≡ false
      → before.notified ≡ false
      → after ≡ before
      → Watched rule stale before after none

abbrev pub transition_of : Option AlertRequest → Option String
transition_of none = none
transition_of (some r) = some r.transition

module _ (rfc3339 : Time → String) (rule : AlertRule) where
  abbrev is_stale : Time → Time → Bool
  is_stale last now = ltb_ℤ (from_seconds rule.stale_after_seconds) (sub_time now last)

  step-Watched :
      (rs : RuleState) (last : Time) (guid : String) (now : Time)
      → let (rs', req) = step_stale rfc3339 rule rs last guid now in
        Watched rule (is_stale last now) rs rs' (transition_of req)
  unfolding step_stale request renotify_if_due
  step-Watched rs last guid now = grind (arith, raised, held, reminded, cleared, dropped, at_rest)

  -- For a rule whose `stale_after_seconds` is a number of seconds that a Duration holds, one tick
  -- raises the alert exactly when the last success is longer ago than that, keeps it while it is,
  -- and clears it exactly when it is no longer.
  pub step_stale-Watched :
      (rs : RuleState) (last : Time) (guid : String) (now : Time) (n : ℕ)
      → rule.stale_after_seconds ≡ pos n
      → n ≤ max_seconds
      → let (rs', req) = step_stale rfc3339 rule rs last guid now in
        Watched rule (ltb (last + n * nanoseconds) now) rs rs' (transition_of req)
  step_stale-Watched rs last guid now n e m =
      subst
        (λ b.
          Watched rule b rs (step_stale rfc3339 rule rs last guid now).0
            (transition_of (step_stale rfc3339 rule rs last guid now).1))
        (ground (arith, e, seconds-lt-sub_time now last n)) (step-Watched rs last guid now)

  -- A tick: the last success that it was given, and when it ran.
  abbrev pub Tick : Type 0
  Tick = Time × Time

  -- The memory after a history of ticks, newest first, from a fresh state.
  unfoldable pub after_ticks : String → List Tick → RuleState
  after_ticks guid [] = fresh
  after_ticks guid ((last, now) ∷ older) =
      (step_stale rfc3339 rule (after_ticks guid older) last guid now).0

  abbrev is_transition : String → Option String → Bool
  is_transition t none = false
  is_transition t (some s) = s == t

  -- How many ticks of a history pushed the transition `t`.
  unfoldable pub pushed : String → String → List Tick → ℕ
  pushed t guid [] = 0
  pushed t guid ((last, now) ∷ older) =
      let rest = pushed t guid older in
      if is_transition t
        (transition_of (step_stale rfc3339 rule (after_ticks guid older) last guid now).1)
      then suc rest
      else rest

  abbrev pub one_if : Bool → ℕ
  one_if b = if b then 1 else 0

  balance :
      (enters recovers : ℕ) (stale : Bool) (before after : RuleState) (t : Option String)
      → rule.notify_recovery ≡ true
      → Watched rule stale before after t
      → enters ≡ recovers + one_if before.notified
      → (if is_transition transition_enter t then suc enters else enters)
        ≡ (if is_transition transition_recover t then suc recovers else recovers)
          + one_if after.notified
  balance enters recovers stale before after _ on (raised s b a) h = ground arith
  balance enters recovers stale before after _ on (held s b a) h = ground arith
  balance enters recovers stale before after _ on (reminded s b a) h = ground arith
  balance enters recovers stale before after _ on (cleared s b r a) h = ground arith
  balance enters recovers stale before after _ on (dropped s b r a) h = ground arith
  balance enters recovers stale before after _ on (at_rest s b a) h = ground arith

  -- Over any history of ticks, of a rule that notifies of recoveries, every recovery answers one
  -- enter: there are as many, or one more enter while the alert stands.
  pub enters-eq-recovers :
      (guid : String) (h : List Tick)
      → rule.notify_recovery ≡ true
      → pushed transition_enter guid h
        ≡ pushed transition_recover guid h + one_if (after_ticks guid h).notified
  unfolding pushed after_ticks
  enters-eq-recovers guid [] on = omega arith
  enters-eq-recovers guid ((last, now) ∷ h) on =
      balance _ _ (is_stale last now) (after_ticks guid h) _ _ on
        (step-Watched (after_ticks guid h) last guid now) (enters-eq-recovers guid h on)

  -- A `stale_after_seconds` whose nanoseconds pass the int64 range, up to twice that many, turns
  -- negative: the watchdog raises its alert even at the instant of a successful poll.
  pub stale_after_overflow :
      (rs : RuleState) (now : Time) (guid : String) (n : ℕ)
      → rule.stale_after_seconds ≡ pos n
      → max_seconds < n
      → n ≤ 2 * max_seconds
      → rs.notified ≡ false
      → (step_stale rfc3339 rule rs now guid now).0.notified ≡ true
  unfolding step_stale sub_time from_seconds mul64 ◌*ℤ◌ wrap64
  stale_after_overflow rs now guid n e low high off = ground arith
