-- ===== src/Alert/Step/Outcome.antt =====
-- What one poll may push, and what it leaves behind.
use poolpilot_relay.Prelude.{
  ==_cases, Bool-cases, Option, String, arith, contains, false, inl, inr, none, refl, some, true,
  ◌&&◌, ◌≡◌, ◌≢◌,
}
use poolpilot_relay.Alert.Engine.{RuleState, renotify_if_due, request}
use poolpilot_relay.Alert.Step.{commit, committed, debounce_of, pending_count, step_banded}
use poolpilot_relay.Go.Time.{Time, before, from_seconds, is_zero, sub_time}
use poolpilot_relay.Prelude.Int.{ltb_ℤ, pos}
use poolpilot_relay.Wire.Alerts.{
  AlertRequest, AlertRule, transition_enter, transition_recover, transition_renotify,
}

module _ (rfc3339 : Time → String) (rule : AlertRule) (now : Time) where
  -- How one poll may take the memory `before` to `after`, with the request that it pushes.
  pub data Outcome (before after : RuleState) : Option AlertRequest → Type 0 where
    -- Nothing is pushed: the alert stands as it stood.
    quiet :
        after.notified ≡ before.notified
        → after.last_notified_at ≡ before.last_notified_at
        → after.last_severity ≡ before.last_severity
        → Outcome before after none
    -- A severity that the rule notifies of is committed, and pushed.
    entered :
        (s : String)
        → contains rule.notify_severities s ≡ true
        → s ≢ committed before
        → after.last_severity ≡ s
        → after.notified ≡ true
        → after.last_notified_at ≡ now
        → Outcome before after (some (request rfc3339 rule s transition_enter now))
    -- The alert still stands, and the cooldown has passed since the last push.
    renotified :
        before.notified ≡ true
        → is_zero before.last_notified_at ≡ false
        → ltb_ℤ (pos 0) (from_seconds rule.cooldown_seconds) ≡ true
        → ltb_ℤ (sub_time now before.last_notified_at) (from_seconds rule.cooldown_seconds) ≡ false
        → after.notified ≡ true
        → after.last_severity ≡ before.last_severity
        → after.last_notified_at ≡ now
        → Outcome before after
            (some (request rfc3339 rule before.last_severity transition_renotify now))
    -- A notified severity is left for one that the rule does not notify of.
    recovered :
        before.notified ≡ true
        → rule.notify_recovery ≡ true
        → contains rule.notify_severities after.last_severity ≡ false
        → after.notified ≡ false
        → Outcome before after
            (some (request rfc3339 rule (committed before) transition_recover now))
    -- The same with nothing to take back, or with recovery pushes off.
    settled :
        (before.notified && rule.notify_recovery) ≡ false
        → contains rule.notify_severities after.last_severity ≡ false
        → after.notified ≡ false
        → Outcome before after none

  renotify-Outcome :
      (before rs : RuleState)
      → rs.notified ≡ before.notified
      → rs.last_notified_at ≡ before.last_notified_at
      → rs.last_severity ≡ before.last_severity
      → Outcome before
          (renotify_if_due rfc3339 rule rs now).0
          (renotify_if_due rfc3339 rule rs now).1
  unfolding renotify_if_due
  renotify-Outcome before rs n l s = grind (arith, quiet, renotified)

  commit-Outcome :
      (rs : RuleState) (o : String)
      → o ≢ committed rs
      → Outcome rs (commit rfc3339 rule rs o now).0 (commit rfc3339 rule rs o now).1
  unfolding commit
  commit-Outcome rs o oc = elim (Bool-cases (contains rule.notify_severities o)) [
    | inl e ↦ rw (e, commit) (entered o e oc refl refl refl)
    | inr e ↦ elim (Bool-cases (rs.notified && rule.notify_recovery)) [
      | inl r ↦ rw (e, commit, r) (recovered (ground arith) (ground arith) e refl)
      | inr r ↦ rw (e, commit, r) (settled r e refl)
    ]
  ]

  -- Every poll of a banded rule is one of these outcomes, for every memory and observation: what
  -- it pushes is an enter, a renotify, a recover or nothing, under the conditions that `Outcome`
  -- names.
  pub step_banded-Outcome :
      (rs : RuleState) (o : String)
      → Outcome rs (step_banded rfc3339 rule rs o now).0 (step_banded rfc3339 rule rs o now).1
  unfolding step_banded
  step_banded-Outcome rs o = elim (==_cases o (committed rs)) [
    | inl (e, _) ↦
        rw (e, step_banded)
          (renotify-Outcome rs (record rs { pending_severity = ""; pending_count = pos 0 }) refl
            refl refl)
    | inr (e, oc) ↦ elim (Bool-cases (ltb_ℤ (pending_count rs o) (debounce_of rule))) [
      | inl w ↦
          rw (e, step_banded, w)
            (renotify-Outcome rs
              (record rs { pending_severity = o; pending_count = pending_count rs o }) refl refl
              refl)
      | inr w ↦ rw (e, step_banded, w) (commit-Outcome rs o oc)
    ]
  ]
