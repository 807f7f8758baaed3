-- ===== src/Alert/Step/Spacing.antt =====
-- How far apart the pushes of one rule are.
use poolpilot_relay.Prelude.{
  All, Bool, List, Option, String, [], arith, eq_iff, false, if◌then◌else◌, none, not, some, subst,
  sym, true, ℕ, ◌*◌, ◌+◌, ◌==◌, ◌∙◌, ◌∷◌, ◌≡◌, ◌≤◌,
}
use poolpilot_relay.Alert.Engine.{RuleState, request}
use poolpilot_relay.Alert.Step.{step_banded}
use poolpilot_relay.Alert.Step.Debounce.{Observation, after_history}
use poolpilot_relay.Alert.Step.Outcome.{
  Outcome, entered, quiet, recovered, renotified, settled, step_banded-Outcome,
}
use poolpilot_relay.Go.Time.{Time, max_seconds, nanoseconds, sub_time-lt-seconds}
use poolpilot_relay.Prelude.Int.{pos}
use poolpilot_relay.Wire.Alerts.{
  AlertRequest, AlertRule, transition_enter, transition_recover, transition_renotify,
}

-- A push that the alert is on: any but a recovery.
abbrev pub is_alarm : Option AlertRequest → Bool
is_alarm none = false
is_alarm (some r) = not (r.transition == transition_recover)

-- The clock does not go back: times fall along a history, newest first.
abbrev pub Descending : Time → List Observation → Type 0
Descending now [] = Unit {0}
Descending now ((o, at) ∷ h) = (at ≤ now) × Descending at h

-- No time of the list is later than `bound`.
abbrev pub Until : Time → List Time → Type 0
Until bound = All (λ t. t ≤ bound)

Until-mono : (a b : Time) (ts : List Time) → a ≤ b → Until a ts → Until b ts
Until-mono a b [] h u = tt
Until-mono a b (t ∷ ts) h (le, u) = (omega arith, Until-mono a b ts h u)

spaced :
    (at : Time) (n : ℕ) (last : Time) (ts : List Time)
    → last + n * nanoseconds ≤ at
    → Until last ts
    → All (λ t. t + n * nanoseconds ≤ at) ts
spaced at n last [] h u = tt
spaced at n last (t ∷ ts) h (le, u) = (omega arith, spaced at n last ts h u)

abbrev noted : Bool → Time → List Time → List Time
noted alarm at ts = if alarm then at ∷ ts else ts

noted-Until :
    (alarm : Bool) (at : Time) (ts : List Time) → Until at ts → Until at (noted alarm at ts)
noted-Until true at ts u = (omega arith, u)
noted-Until false at ts u = u

module _ (rfc3339 : Time → String) (rule : AlertRule) where
  -- When the polls of a history pushed an alarm.
  unfoldable pub alarm_times : List Observation → List Time
  alarm_times [] = []
  alarm_times ((o, at) ∷ h) =
      let rest = alarm_times h in
      if is_alarm (step_banded rfc3339 rule (after_history rfc3339 rule h) o at).1
      then at ∷ rest
      else rest

  alarms-le_now : (now : Time) (h : List Observation) → Descending now h → Until now (alarm_times h)
  unfolding alarm_times
  alarms-le_now now [] d = tt
  alarms-le_now now ((o, at) ∷ h) (le, d) =
      Until-mono at now _ le (noted-Until _ at (alarm_times h) (alarms-le_now at h d))

  Outcome-Until :
      (at : Time) (ts : List Time) {before after : RuleState} {req : Option AlertRequest}
      → Outcome rfc3339 rule at before after req
      → after.notified ≡ true
      → Until at ts
      → (before.notified ≡ true → Until before.last_notified_at ts)
      → Until after.last_notified_at (noted (is_alarm req) at ts)
  unfolding request
  Outcome-Until at ts (quiet n l s) on u earlier =
      subst (λ t. Until t ts) (sym l) (earlier (sym n ∙ on))
  Outcome-Until at ts (entered s c d l n t) on u earlier =
      subst (λ x. Until x (at ∷ ts)) (sym t) (omega arith, u)
  Outcome-Until at ts (renotified b z p c n s t) on u earlier =
      subst (λ x. Until x (at ∷ ts)) (sym t) (omega arith, u)
  Outcome-Until at ts (recovered b r c n) on u earlier = cc
  Outcome-Until at ts (settled b c n) on u earlier = cc

  alarms-le_last :
      (now : Time) (h : List Observation)
      → Descending now h
      → (after_history rfc3339 rule h).notified ≡ true
      → Until (after_history rfc3339 rule h).last_notified_at (alarm_times h)
  unfolding alarm_times after_history
  alarms-le_last now [] d n = tt
  alarms-le_last now ((o, at) ∷ h) (le, d) n =
      Outcome-Until at (alarm_times h)
        (step_banded-Outcome rfc3339 rule at (after_history rfc3339 rule h) o) n
        (alarms-le_now at h d) (alarms-le_last at h d)

  renotified-Until :
      (at : Time) (n : ℕ) (ts : List Time) {before after : RuleState} {req : Option AlertRequest}
      → Outcome rfc3339 rule at before after req
      → rule.cooldown_seconds ≡ pos n
      → n ≤ max_seconds
      → (r : AlertRequest) → req ≡ some r
      → r.transition ≡ transition_renotify
      → (before.notified ≡ true → Until before.last_notified_at ts)
      → All (λ t. t + n * nanoseconds ≤ at) ts
  unfolding request
  renotified-Until at n ts (quiet _ _ _) c m r e k earlier = cc
  renotified-Until at n ts (entered _ _ _ _ _ _) c m r e k earlier =
      absurd (ground (arith, eq_iff transition_enter transition_renotify))
  renotified-Until at n ts {before} (renotified b z p q _ _ _) c m r e k earlier =
      spaced at n before.last_notified_at ts
        (ground (arith, c, q, sub_time-lt-seconds at before.last_notified_at n)) (earlier b)
  renotified-Until at n ts (recovered _ _ _ _) c m r e k earlier =
      absurd (ground (arith, eq_iff transition_recover transition_renotify))
  renotified-Until at n ts (settled _ _ _) c m r e k earlier = cc

  -- Over a history from a fresh state, newest first and with a clock that does not go back, a poll
  -- that pushes a renotify comes at least the rule's cooldown after every alarm pushed before it,
  -- for a cooldown of as many seconds as a Duration holds.
  pub renotify_spacing :
      (n : ℕ) (h : List Observation) (o : String) (at : Time) (r : AlertRequest)
      → rule.cooldown_seconds ≡ pos n
      → n ≤ max_seconds
      → Descending at h
      → (step_banded rfc3339 rule (after_history rfc3339 rule h) o at).1 ≡ some r
      → r.transition ≡ transition_renotify
      → All (λ t. t + n * nanoseconds ≤ at) (alarm_times h)
  renotify_spacing n h o at r c m d e k =
      renotified-Until at n (alarm_times h)
        (step_banded-Outcome rfc3339 rule at (after_history rfc3339 rule h) o) c m r e k
        (alarms-le_last at h d)
