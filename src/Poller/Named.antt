-- ===== src/Poller/Named.antt =====
-- internal/agent/poller/poller.go: the alerts of a poll name the controller that was polled.
use poolpilot_relay.Prelude.{
  All, All-append, Bool, Bool-cases, List, Map, Option, String, [], false, if◌then◌else◌, inl, inr,
  insert, none, not, refl, some, true, ◌&&◌, ◌==◌, ◌∷◌, ◌≡◌,
}
use poolpilot_relay.Alert.Engine.{RuleState, ensure_state, renotify_if_due, request}
use poolpilot_relay.Alert.Evaluate.{evaluate, to_list}
use poolpilot_relay.Alert.Evaluate.Frame.{evaluate-Names}
use poolpilot_relay.Alert.Stale.{
  evaluate_stale, severity_stale, stale_rule, stale_rules, step_stale,
}
use poolpilot_relay.Go.Float64.{Float64}
use poolpilot_relay.Go.Time.{Time, from_seconds, is_zero, sub_time, zero_time}
use poolpilot_relay.Poller.{Fetch, Snapshot, evaluate_poll, poll_failed, polled}
use poolpilot_relay.Prelude.Int.{ltb_ℤ}
use poolpilot_relay.State.Document.{Controller}
use poolpilot_relay.Wire.Alerts.{
  AlertRequest, AlertRule, kind_stale_data, transition_enter, transition_recover,
}

abbrev pub NamesGuid : String → List AlertRequest → Type 0
NamesGuid guid reqs = All (λ r. r.controller_guid ≡ guid) reqs

abbrev StepNames : String → RuleState × Option AlertRequest → Type 0
StepNames guid out = NamesGuid guid (to_list out.1)

abbrev RuleNames : String → Map RuleState × List AlertRequest → Type 0
RuleNames guid out = NamesGuid guid out.1

branch-NamesGuid :
    (guid : String) (a b c d : Bool) (s t' u' v : RuleState) (r : AlertRequest)
    (renotified : Option AlertRequest) (recovered : AlertRequest)
    → r.controller_guid ≡ guid
    → recovered.controller_guid ≡ guid
    → StepNames guid (
        if a
        then (s, some r)
        else if b
        then (
          t',
          elim renotified [ none ↦ none | some q ↦ some (record q { controller_guid = guid }) ],
        )
        else if c
        then (u', (if d then some recovered else none))
        else (v, none))
branch-NamesGuid guid true b c d s t' u' v r renotified recovered e f = (e, tt)
branch-NamesGuid guid false true c d s t' u' v r none recovered e f = tt
branch-NamesGuid guid false true c d s t' u' v r (some q) recovered e f = (refl, tt)
branch-NamesGuid guid false false true true s t' u' v r renotified recovered e f = (f, tt)
branch-NamesGuid guid false false true false s t' u' v r renotified recovered e f = tt
branch-NamesGuid guid false false false d s t' u' v r renotified recovered e f = tt

rule-NamesGuid :
    (guid : String) (counts : Bool) (changed states : Map RuleState) (reqs : List AlertRequest)
    → NamesGuid guid reqs
    → RuleNames guid (if counts then (changed, reqs) else (states, []))
rule-NamesGuid guid true changed states reqs h = h
rule-NamesGuid guid false changed states reqs h = tt

All-guid :
    {P : AlertRequest → Type 0} (guid : String) (reqs : List AlertRequest)
    → ((q : AlertRequest) → P q → q.controller_guid ≡ guid)
    → All P reqs
    → NamesGuid guid reqs
All-guid guid [] f h = tt
All-guid guid (r ∷ reqs) f h = (f r h.0, All-guid guid reqs f h.1)

module _ (rfc3339 : Time → String) where
  step_stale-NamesGuid :
      (rule : AlertRule) (rs : RuleState) (last : Time) (guid : String) (now : Time)
      → NamesGuid guid (to_list (step_stale rfc3339 rule rs last guid now).1)
  unfolding step_stale
  step_stale-NamesGuid rule rs last guid now =
      let stale : Bool = ltb_ℤ (from_seconds rule.stale_after_seconds) (sub_time now last) in
      branch-NamesGuid guid (stale && not rs.notified) (stale && rs.notified)
        (not stale && rs.notified) rule.notify_recovery
        (record rs {
          last_severity = severity_stale;
          notified = true;
          last_notified_at = now;
          active_since = now;
        })
        (renotify_if_due rfc3339 rule rs now).0
        (record rs {
          last_severity = "";
          notified = false;
          last_notified_at = zero_time;
          active_since = zero_time;
        })
        rs
        (record (request rfc3339 rule severity_stale transition_enter now) {
          controller_guid = guid;
        })
        (renotify_if_due rfc3339 rule rs now).1
        (record (request rfc3339 rule severity_stale transition_recover now) {
          controller_guid = guid;
        })
        refl refl

  stale_rules-NamesGuid :
      (rules : List AlertRule) (states : Map RuleState) (last : Time) (guid : String) (now : Time)
      → NamesGuid guid (stale_rules rfc3339 rules states last guid now).1
  unfolding stale_rules stale_rule
  stale_rules-NamesGuid [] states last guid now = tt
  stale_rules-NamesGuid (rule ∷ rules) states last guid now =
      let stepped = step_stale rfc3339 rule (ensure_state states rule.id) last guid now in
      All-append (λ r. r.controller_guid ≡ guid) (stale_rule rfc3339 rule states last guid now).1
        (stale_rules rfc3339 rules (stale_rule rfc3339 rule states last guid now).0 last guid now).1
        (rule-NamesGuid guid ((rule.kind == kind_stale_data) && rule.enabled)
          (insert rule.id stepped.0 states) states (to_list stepped.1)
          (step_stale-NamesGuid rule (ensure_state states rule.id) last guid now))
        (stale_rules-NamesGuid rules (stale_rule rfc3339 rule states last guid now).0 last guid now)

  evaluate_stale-NamesGuid :
      (rules : List AlertRule) (states : Map RuleState) (last : Time) (guid : String) (now : Time)
      → NamesGuid guid (evaluate_stale rfc3339 rules states last guid now).1
  unfolding evaluate_stale
  evaluate_stale-NamesGuid rules states last guid now = elim (Bool-cases (is_zero last)) [
    | inl e ↦ rw e tt
    | inr e ↦ rw e (stale_rules-NamesGuid rules states last guid now)
  ]

  -- Every alert of a poll carries the GUID of the controller that was polled.
  pub evaluate_poll-NamesGuid :
      (fadd fsub : Float64 → Float64 → Float64) (fetch : Fetch) (c : Controller) (snap : Snapshot)
      (now : Time)
      → NamesGuid c.guid (evaluate_poll rfc3339 fadd fsub fetch c snap now).1
  unfolding evaluate_poll
  evaluate_poll-NamesGuid fadd fsub poll_failed c snap now =
      evaluate_stale-NamesGuid c.alert_rules c.alert_state snap.last_success c.guid now
  evaluate_poll-NamesGuid fadd fsub (polled readings fetch) c snap now =
      let first =
        evaluate rfc3339 fadd fsub c.alert_rules c.alert_state snap.readings snap.control c.guid
          now in
      All-append (λ r. r.controller_guid ≡ c.guid) first.1
        (evaluate_stale rfc3339 c.alert_rules first.0 snap.last_success c.guid now).1
        (All-guid c.guid first.1 (λ q h. h.0)
          (evaluate-Names rfc3339 fadd fsub snap.readings snap.control c.guid now c.alert_rules
            c.alert_state))
        (evaluate_stale-NamesGuid c.alert_rules first.0 snap.last_success c.guid now)
