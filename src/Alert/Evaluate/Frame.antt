-- ===== src/Alert/Evaluate/Frame.antt =====
-- What an evaluation leaves alone.
use poolpilot_relay.Prelude.{
  All, All-append, Bool, Bool-cases, List, Map, Option, Option-cases, String, [], any, ap, arith,
  eq_iff, false, inl, inr, is_some, lookup, lookup-delete, lookup-insert, lookup-insert_self, map,
  not, refl, some, sym, true, ◌&&◌, ◌++◌, ◌==◌, ◌∙◌, ◌∷◌, ◌≡◌,
}
use poolpilot_relay.Alert.Control.{effective_bands}
use poolpilot_relay.Alert.Engine.{RuleState, ensure_state, find_reading, request}
use poolpilot_relay.Alert.Evaluate.{
  evaluate, evaluate_one, evaluate_reading, evaluate_rule, is_unbanded, stamp, to_list,
}
use poolpilot_relay.Alert.Step.{step_banded}
use poolpilot_relay.Alert.Step.Outcome.{
  Outcome, entered, quiet, recovered, renotified, settled, step_banded-Outcome,
}
use poolpilot_relay.Bands.{BandsConfig, banded, severity_at}
use poolpilot_relay.Go.Float64.{Float64}
use poolpilot_relay.Go.Time.{Time}
use poolpilot_relay.Measure.{ControlConfig, Reading}
use poolpilot_relay.Wire.Alerts.{AlertRequest, AlertRule, kind_measurement_band}

-- A rule that `Evaluate` acts on, by the id of its state.
abbrev pub acts_on : String → AlertRule → Bool
acts_on id r = (r.kind == kind_measurement_band) && (r.enabled && (r.id == id))

module _ (rfc3339 : Time → String) (fadd fsub : Float64 → Float64 → Float64) where
  evaluate_reading-frame :
      (rule : AlertRule) (states : Map RuleState) (reading : Reading) (cfg : BandsConfig)
      (guid : String) (now : Time) (id : String)
      → (rule.id == id) ≡ false
      → lookup id (evaluate_reading rfc3339 fadd fsub rule states reading cfg guid now).0
        ≡ lookup id states
  unfolding evaluate_reading
  evaluate_reading-frame rule states reading cfg guid now id other =
      lookup-insert rule.id id _ states ∙ rw other

  evaluate_rule-frame :
      (rule : AlertRule) (states : Map RuleState) (readings : List Reading)
      (control : Map ControlConfig) (guid : String) (now : Time) (id : String)
      → (rule.id == id) ≡ false
      → lookup id (evaluate_rule rfc3339 fadd fsub rule states readings control guid now).0
        ≡ lookup id states
  unfolding evaluate_rule
  evaluate_rule-frame rule states readings control guid now id other =
      grind (arith, lookup-delete rule.id id states, evaluate_reading-frame)

  module _ (readings : List Reading) (control : Map ControlConfig) (guid : String)
      (now : Time) where
    abbrev one : AlertRule → Map RuleState → Map RuleState × List AlertRequest
    one rule states = evaluate_one rfc3339 fadd fsub rule states readings control guid now

    abbrev run : List AlertRule → Map RuleState → Map RuleState × List AlertRequest
    run rules states = evaluate rfc3339 fadd fsub rules states readings control guid now

    one-frame :
        (rule : AlertRule) (states : Map RuleState) (id : String)
        → acts_on id rule ≡ false
        → lookup id (one rule states).0 ≡ lookup id states
    unfolding evaluate_one
    one-frame rule states id other =
        ground (arith, evaluate_rule-frame rule states readings control guid now id)

    -- An evaluation leaves alone the state of every id that no enabled band rule of the list has.
    evaluate-frame :
        (rules : List AlertRule) (states : Map RuleState) (id : String)
        → any (acts_on id) rules ≡ false
        → lookup id (run rules states).0 ≡ lookup id states
    unfolding evaluate
    evaluate-frame [] states id h = refl
    evaluate-frame (rule ∷ rules) states id h =
        evaluate-frame rules (one rule states).0 id (ground arith)
        ∙ one-frame rule states id (ground arith)

    ensure_state-eq :
        (s t : Map RuleState) (id : String)
        → lookup id s ≡ lookup id t
        → ensure_state s id ≡ ensure_state t id
    unfolding ensure_state
    ensure_state-eq s t id e = rw (e, ensure_state)

    -- What a rule does to its own state depends on that state alone.
    reading-local :
        (rule : AlertRule) (s t : Map RuleState) (reading : Reading) (cfg : BandsConfig)
        → lookup rule.id s ≡ lookup rule.id t
        → lookup rule.id (evaluate_reading rfc3339 fadd fsub rule s reading cfg guid now).0
          ≡ lookup rule.id (evaluate_reading rfc3339 fadd fsub rule t reading cfg guid now).0
    unfolding evaluate_reading
    reading-local rule s t reading cfg e =
        lookup-insert_self rule.id _ s
        ∙ ap
            (λ rs.
              some (step_banded rfc3339 rule rs (severity_at (banded cfg) reading.value) now).0)
            (ensure_state-eq s t rule.id e)
        ∙ sym (lookup-insert_self rule.id _ t)

    one-local :
        (rule : AlertRule) (s t : Map RuleState)
        → lookup rule.id s ≡ lookup rule.id t
        → lookup rule.id (one rule s).0 ≡ lookup rule.id (one rule t).0
    unfolding evaluate_one evaluate_rule
    one-local rule s t e =
        grind
          (arith, lookup-delete rule.id rule.id s, lookup-delete rule.id rule.id t, reading-local)

    -- Wherever a rule stands in the list, if no other enabled band rule shares its id, its state
    -- after the evaluation is what evaluating the rule alone makes of its state before.
    pub evaluate_independent :
        (earlier : List AlertRule) (rule : AlertRule) (later : List AlertRule)
        (states : Map RuleState)
        → any (acts_on rule.id) earlier ≡ false
        → any (acts_on rule.id) later ≡ false
        → lookup rule.id (run (earlier ++ (rule ∷ later)) states).0
          ≡ lookup rule.id (run (rule ∷ []) states).0
    unfolding evaluate
    evaluate_independent [] rule later states e l =
        evaluate-frame later (one rule states).0 rule.id l
    evaluate_independent (r ∷ earlier) rule later states e l =
        evaluate_independent earlier rule later (one r states).0 (ground arith) l
        ∙ one-local rule (one r states).0 states (one-frame r states rule.id (ground arith))

    step_rule_id :
        (rule : AlertRule) {before after : RuleState} {req : Option AlertRequest}
        (reading : Reading)
        → Outcome rfc3339 rule now before after req
        → All
            (λ q. (q.controller_guid ≡ guid) × (q.rule_id ≡ rule.id))
            (map (stamp guid reading) (to_list req))
    unfolding stamp request
    step_rule_id rule reading (quiet _ _ _) = tt
    step_rule_id rule reading (entered _ _ _ _ _ _) = ((refl, refl), tt)
    step_rule_id rule reading (renotified _ _ _ _ _ _ _) = ((refl, refl), tt)
    step_rule_id rule reading (recovered _ _ _ _) = ((refl, refl), tt)
    step_rule_id rule reading (settled _ _ _) = tt

    -- A request that names this household's controller and an enabled band rule of the list.
    abbrev pub Names : List AlertRule → AlertRequest → Type 0
    Names rules q = (q.controller_guid ≡ guid) × (any (acts_on q.rule_id) rules ≡ true)

    All-Names :
        (rule : AlertRule) (rules : List AlertRule) (out : List AlertRequest)
        → ((rule.kind == kind_measurement_band) && rule.enabled) ≡ true
        → All (λ q. (q.controller_guid ≡ guid) × (q.rule_id ≡ rule.id)) out
        → All (Names (rule ∷ rules)) out
    All-Names rule rules [] acts h = tt
    All-Names rule rules (q ∷ out) acts (here, h) =
        ((here.0, ground (arith, here, eq_iff rule.id q.rule_id)), All-Names rule rules out acts h)

    All-Names_later :
        (rule : AlertRule) (rules : List AlertRule) (out : List AlertRequest)
        → All (Names rules) out
        → All (Names (rule ∷ rules)) out
    All-Names_later rule rules [] h = tt
    All-Names_later rule rules (q ∷ out) (here, h) =
        ((here.0, ground (arith, here)), All-Names_later rule rules out h)

    reading-Names :
        (rule : AlertRule) (states : Map RuleState) (reading : Reading) (cfg : BandsConfig)
        → All
            (λ q. (q.controller_guid ≡ guid) × (q.rule_id ≡ rule.id))
            (evaluate_reading rfc3339 fadd fsub rule states reading cfg guid now).1
    unfolding evaluate_reading
    reading-Names rule states reading cfg = step_rule_id rule reading (
        step_banded-Outcome rfc3339 rule now (ensure_state states rule.id)
          (severity_at (banded cfg) reading.value))

    rule-Names :
        (rule : AlertRule) (states : Map RuleState)
        → All
            (λ q. (q.controller_guid ≡ guid) × (q.rule_id ≡ rule.id))
            (evaluate_rule rfc3339 fadd fsub rule states readings control guid now).1
    unfolding evaluate_rule
    rule-Names rule states =
        elim (Bool-cases (not (is_some rule.bands) && is_unbanded control rule.measurement_type)) [
          | inl u ↦ rw (u, evaluate_rule) tt
          | inr u ↦ elim (Option-cases (find_reading readings rule.measurement_type)) [
            | inl r ↦ rw (u, evaluate_rule, r) tt
            | inr (reading, r) ↦ elim (Option-cases (effective_bands fadd fsub rule control)) [
              | inl b ↦ rw (u, evaluate_rule, r, b) tt
              | inr (cfg, b) ↦ rw (u, evaluate_rule, r, b) (reading-Names rule states reading cfg)
            ]
          ]
        ]

    one-Names :
        (rule : AlertRule) (rules : List AlertRule) (states : Map RuleState)
        → All (Names (rule ∷ rules)) (one rule states).1
    unfolding evaluate_one
    one-Names rule rules states =
        elim (Bool-cases ((rule.kind == kind_measurement_band) && rule.enabled)) [
          | inl acts ↦
              rw (acts, evaluate_one) (All-Names rule rules _ acts (rule-Names rule states))
          | inr idle ↦ rw (idle, evaluate_one) tt
        ]

    -- Every request of an evaluation carries the controller's guid and the id of an enabled band
    -- rule of the list.
    pub evaluate-Names :
        (rules : List AlertRule) (states : Map RuleState) → All (Names rules) (run rules states).1
    unfolding evaluate
    evaluate-Names [] states = tt
    evaluate-Names (rule ∷ rules) states =
        All-append (Names (rule ∷ rules)) (one rule states).1 _ (one-Names rule rules states)
          (All-Names_later rule rules _ (evaluate-Names rules (one rule states).0))
