-- ===== src/Alert/Seed/Orphans.antt =====
-- What dropping orphaned states leaves.
use poolpilot_relay.Prelude.{
  List, Map, String, any, if◌then◌else◌, lookup, lookup-restrict, none, ◌==◌, ◌≡◌,
}
use poolpilot_relay.Alert.Engine.{RuleState}
use poolpilot_relay.Alert.Seed.{drop_orphan_state}
use poolpilot_relay.Wire.Alerts.{AlertRule}

-- After `DropOrphanState` the state of a rule that is in the list is what it was, and of any
-- other id there is none.
pub lookup-drop_orphan_state :
    (states : Map RuleState) (rules : List AlertRule) (id : String)
    → lookup id (drop_orphan_state states rules)
      ≡ (if any (λ r. r.id == id) rules then lookup id states else none)
unfolding drop_orphan_state
lookup-drop_orphan_state states rules id = lookup-restrict _ id states
