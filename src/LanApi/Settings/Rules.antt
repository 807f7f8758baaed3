-- ===== src/LanApi/Settings/Rules.antt =====
-- The alert rules across GET and PUT.
use mathlib.Core.Option
use poolpilot_relay.Prelude.{
  ==_refl, Bool, Bool-cases, List, Option-cases, String, [], any, ap, ap₂, arith, eq_iff,
  if◌then◌else◌, inl, inr, is_some, lookup, lookup-restrict, map, none, refl, some, sym, ◌==◌, ◌∙◌,
  ◌∷◌, ◌≡◌, ◌≢◌, ◌⊎◌,
}
use poolpilot_relay.Alert.Rules.{validate_rules}
use poolpilot_relay.LanApi.Auth.{Reply, refused}
use poolpilot_relay.LanApi.Settings.{
  get_controller_rules, put_controller_rules, replace_rules, set_controller_rules, strip_rule,
  with_default_ok_tolerance, with_default_rule,
}
use poolpilot_relay.State.Controllers.{find_controller}
use poolpilot_relay.State.Controllers.Slots.{find-modify_controller}
use poolpilot_relay.State.Document.{Controller, State}
use poolpilot_relay.Store.{Store, normalize}
use poolpilot_relay.Store.Cases.{update-cases}
use poolpilot_relay.Wire.Alerts.{AlertRule, kind_measurement_band}

strip_default : (r : AlertRule) → strip_rule (with_default_rule r) ≡ strip_rule r
unfolding strip_rule with_default_rule
strip_default r = elim (Bool-cases (r.kind == kind_measurement_band)) [
  | inl e ↦ rw (e, with_default_rule)
  | inr e ↦ rw (e, with_default_rule)
]

default_strip : (r : AlertRule) → with_default_rule (strip_rule r) ≡ with_default_rule r
unfolding strip_rule with_default_rule
default_strip r = elim (Bool-cases (r.kind == kind_measurement_band)) [
  | inl e ↦ rw (e, with_default_rule)
  | inr e ↦ rw (e, with_default_rule)
]

-- The stored copy of a response is the stored copy, and the response to a stored copy does not
-- depend on the field that is stripped.
strip_defaults :
    (rules : List AlertRule)
    → (map strip_rule (with_default_ok_tolerance rules) ≡ map strip_rule rules)
      × (with_default_ok_tolerance (map strip_rule rules) ≡ with_default_ok_tolerance rules)
unfolding with_default_ok_tolerance
strip_defaults [] = (refl, refl)
strip_defaults (r ∷ rules) = (
  ap₂ ◌∷◌ (strip_default r) (strip_defaults rules).0,
  ap₂ ◌∷◌ (default_strip r) (strip_defaults rules).1,
)

keeps_guid :
    (rules : List AlertRule) (c : Controller) → (set_controller_rules rules c).guid ≡ c.guid
unfolding set_controller_rules
keeps_guid rules c = refl

replaced :
    (guid other : String) (rules : List AlertRule) (s : State)
    → find_controller other (normalize (replace_rules guid rules s)).controllers ≡ (
        if guid == other
        then Option.map (set_controller_rules rules) (find_controller other s.controllers)
        else find_controller other s.controllers)
unfolding replace_rules normalize
replaced guid other rules s =
    find-modify_controller guid other (set_controller_rules rules) s.controllers (keeps_guid rules)

found_after :
    (guid : String) (rules : List AlertRule) (s : State) (c : Controller)
    → find_controller guid s.controllers ≡ some c
    → find_controller guid (normalize (replace_rules guid rules s)).controllers
      ≡ some (set_controller_rules rules c)
found_after guid rules s c h = replaced guid guid rules s ∙ ground (arith, ==_refl guid, h)

shown_after :
    (guid : String) (rules : List AlertRule) (s : State) (c : Controller)
    → find_controller guid s.controllers ≡ some c
    → get_controller_rules guid (normalize (replace_rules guid rules s))
      ≡ some (with_default_ok_tolerance rules)
unfolding get_controller_rules set_controller_rules
shown_after guid rules s c h =
    rw (found_after guid rules s c h, get_controller_rules) (ap some (strip_defaults rules).1)

shown_again :
    (rules : List AlertRule)
    → with_default_ok_tolerance (with_default_ok_tolerance rules) ≡ with_default_ok_tolerance rules
shown_again rules =
    sym (strip_defaults (with_default_ok_tolerance rules)).1
    ∙ ap with_default_ok_tolerance (strip_defaults rules).0
    ∙ (strip_defaults rules).1

-- The ends of the handler: what it refuses leaves the store as it was.
put_cases :
    (s : State) (persists : Bool) (guid : String) (rules : List AlertRule) (st : Store)
    → let (st', r) = put_controller_rules s persists guid rules st in
      ((r ≡ inr (with_default_ok_tolerance rules))
        × (st'.doc ≡ normalize (replace_rules guid rules st.doc))
        × (validate_rules rules ≡ none))
      ⊎ ((e : Reply) × (r ≡ inl e) × (st' ≡ st))
unfolding put_controller_rules
put_cases s persists guid rules st = elim (Bool-cases (is_some (validate_rules rules))) [
  | inl v ↦
      inr (refused 400 "invalid_rule", rw (v, put_controller_rules), rw (v, put_controller_rules))
  | inr v ↦ elim (Bool-cases (is_some (find_controller guid s.controllers))) [
    | inr k ↦ inr (
      refused 404 "unknown_controller",
      rw (v, k, put_controller_rules),
      rw (v, k, put_controller_rules),
    )
    | inl k ↦ elim (update-cases persists (replace_rules guid rules) st) [
      | inl e ↦ inl (
        rw (v, k, e, put_controller_rules),
        rw (v, k, e, put_controller_rules),
        ground (arith, v),
      )
      | inr (x, e) ↦ inr (
        refused 500 "persist_failed",
        rw (v, k, e, put_controller_rules),
        rw (v, k, e, put_controller_rules),
      )
    ]
  ]
]

-- A PUT of alert rules that is answered with rules went through validation, and the answer is what
-- a GET shows from then on, for a controller that the store still has. Every other controller is
-- as it was. A PUT that is refused, or that cannot be persisted, changes nothing.
pub put_controller_rules_lem :
    (s : State) (persists : Bool) (guid : String) (rules shown : List AlertRule) (st : Store)
    (c : Controller)
    → find_controller guid st.doc.controllers ≡ some c
    → let (st', r) = put_controller_rules s persists guid rules st in
      (r ≡ inr shown
        → (get_controller_rules guid st'.doc ≡ some shown)
          × (validate_rules rules ≡ none)
          × ((other : String)
              → other ≢ guid
              → find_controller other st'.doc.controllers
                ≡ find_controller other st.doc.controllers))
      × ((e : Reply) → r ≡ inl e → st' ≡ st)
put_controller_rules_lem s persists guid rules shown st c h =
    elim (put_cases s persists guid rules st) [
      | inl (r, d, v) ↦ (
        λ p. (
          ap (get_controller_rules guid) d
              ∙ shown_after guid rules st.doc c h
              ∙ ground (arith, p, r),
          v,
          λ other n.
              rw (d, replaced guid other rules st.doc) (ground (arith, n, eq_iff guid other)),
        ),
        λ e p. absurd (ground (arith, p, r)),
      )
      | inr (e, r, same) ↦ (λ p. absurd (ground (arith, p, r)), λ x p. same)
    ]

-- What a GET shows can be put back: where that PUT goes through, its answer and the next GET are
-- the rules that were shown.
pub rules_round_trip :
    (s : State) (persists : Bool) (guid : String) (shown again : List AlertRule) (st : Store)
    → get_controller_rules guid st.doc ≡ some shown
    → let (st', r) = put_controller_rules s persists guid shown st in
      r ≡ inr again → (again ≡ shown) × (get_controller_rules guid st'.doc ≡ some shown)
unfolding get_controller_rules
rules_round_trip s persists guid shown again st g r =
    elim (Option-cases (find_controller guid st.doc.controllers)) [
      | inl e ↦ absurd (ground (arith, e, g))
      | inr (c, e) ↦
          let was : with_default_ok_tolerance c.alert_rules ≡ shown = ground (arith, e, g) in
          let (put, _) = put_controller_rules_lem s persists guid shown again st c e in
          elim (put_cases s persists guid shown st) [
            | inl (a, _, _) ↦
                let same : again ≡ shown =
                  ground (arith, r, a)
                  ∙ ap with_default_ok_tolerance (sym was)
                  ∙ shown_again c.alert_rules
                  ∙ was in
                (same, (put r).0 ∙ ap some same)
            | inr (x, a, _) ↦ absurd (ground (arith, r, a))
          ]
    ]

-- The state of a rule that is put back is kept, and that of a rule that is gone is dropped.
pub set_controller_rules-states :
    (rules : List AlertRule) (c : Controller) (id : String)
    → lookup id (set_controller_rules rules c).alert_state
      ≡ (if any (λ r. r.id == id) rules then lookup id c.alert_state else none)
unfolding set_controller_rules
set_controller_rules-states rules c id =
    lookup-restrict (λ i. any (λ r. r.id == i) rules) id c.alert_state
