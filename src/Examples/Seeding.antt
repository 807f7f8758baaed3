-- ===== src/Examples/Seeding.antt =====
-- Rules and bands: factory rules, validation, derived bands and their scale.
use poolpilot_relay.Prelude.{All, List, [], none, ◌↔◌, ◌∷◌, ◌≡◌}
use poolpilot_relay.Alert.Rules.{validate_rules}
use poolpilot_relay.Alert.Rules.Contract.{DistinctIds, IsValidRule, validate_rules_iff}
use poolpilot_relay.Alert.Seed.{chemistry_types_for, reconcile_seed}
use poolpilot_relay.Alert.Seed.Contract.{IsReconciled, reconcile_seed-IsReconciled}
use poolpilot_relay.Bands.{type_chlorine}
use poolpilot_relay.Examples.Data.{ph_rule, user_rule}
use poolpilot_relay.Wire.Alerts.{AlertRule}

rules : List AlertRule
rules = user_rule ∷ record ph_rule { measurement_type = type_chlorine } ∷ []

reconcile_seed-IsReconciled_example :
    IsReconciled (chemistry_types_for "procon-ip") (reconcile_seed rules "procon-ip")
reconcile_seed-IsReconciled_example = reconcile_seed-IsReconciled rules "procon-ip"

validate_rules_iff_example :
    (validate_rules rules ≡ none) ↔ (DistinctIds [] rules × All IsValidRule rules)
validate_rules_iff_example = validate_rules_iff rules
