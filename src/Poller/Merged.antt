-- ===== src/Poller/Merged.antt =====
-- internal/agent/poller/poller.go: the rule states that a poll writes.
use poolpilot_relay.Prelude.{
  ==_cases, Bool, List, Map, Option, String, [], any, arith, if◌then◌else◌, inl, inr, lookup,
  lookup-insert, none, refl, some, subst, ◌==◌, ◌||◌, ◌∷◌, ◌≡◌,
}
use poolpilot_relay.Alert.Engine.{RuleState}
use poolpilot_relay.Poller.{keep_state, merge_states}
use poolpilot_relay.Wire.Alerts.{AlertRule}

lookup-keep_state :
    (written read : String) (o : Option RuleState) (merged states : Map RuleState) (later : Bool)
    → lookup written states ≡ o
    → lookup read merged ≡ (if later then lookup read states else none)
    → lookup read (keep_state written o merged)
      ≡ (if (written == read) || later then lookup read states else none)
lookup-keep_state written read none merged states later e h = elim (==_cases written read) [
  | inl (b, s) ↦
      let gone : (lookup read states ≡ none) = subst (λ i. lookup i states ≡ none) s e in
      ground (arith, b, gone, h)
  | inr (b, _) ↦ ground (arith, b, h)
]
lookup-keep_state written read (some rs) merged states later e h = elim (==_cases written read) [
  | inl (b, s) ↦
      let there : (lookup read states ≡ some rs) = subst (λ i. lookup i states ≡ some rs) s e in
      ground (arith, b, there, lookup-insert written read rs merged)
  | inr (b, _) ↦ ground (arith, b, h, lookup-insert written read rs merged)
]

-- The states that are kept are those of the rules of the document that is written: a state of a rule
-- that was removed since does not come back, and no state of a rule that is there is lost.
pub lookup-merge_states :
    (rules : List AlertRule) (states : Map RuleState) (id : String)
    → lookup id (merge_states rules states)
      ≡ (if any (λ r. r.id == id) rules then lookup id states else none)
unfolding merge_states lookup
lookup-merge_states [] states id = refl
lookup-merge_states (rule ∷ rules) states id =
    lookup-keep_state rule.id id (lookup rule.id states) (merge_states rules states) states
      (any (λ r. r.id == id) rules) refl (lookup-merge_states rules states id)
