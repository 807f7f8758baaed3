-- ===== src/State/Migrate/Preserved.antt =====
-- What a migrated document keeps.
use poolpilot_relay.Prelude.{
  All, Bool-cases, String, all, any, arith, inl, inr, not, refl, true, ◌==◌, ◌≡◌,
}
use poolpilot_relay.State.Controllers.{controller_configured}
use poolpilot_relay.State.Document.{is_active, is_owner, schema_version}
use poolpilot_relay.State.Household.{paired}
use poolpilot_relay.State.Migrate.{StateV1, migrate_controllers, migrate_devices, migrate_v1_to_v2}
use poolpilot_relay.State.Roles.{infer_devices, infer_legacy_roles}
use poolpilot_relay.State.Roles.Inferred.{infer_devices-first}

-- A migrated document keeps the agent's identity, its cloud credentials, outbox and TLS material,
-- is paired exactly if the old one was, has a configured controller exactly if the old one had,
-- and that controller carries the old document's rules, their state and its last success.
pub migrate_v1_to_v2_lem :
    (new_id : String) (v1 : StateV1)
    → let s = migrate_v1_to_v2 new_id v1 in
      ((s.agent_id ≡ v1.agent_id)
        × (s.cloud ≡ v1.cloud)
        × (s.outbox ≡ v1.outbox)
        × (s.tls ≡ v1.tls)
        × (s.version ≡ schema_version))
      × (paired s ≡ not (v1.pairing.token_sha256 == ""))
      × (controller_configured s.controllers ≡ not (v1.controller.lan_address == ""))
      × All
          (λ d. (d.token_sha256 ≡ v1.pairing.token_sha256) × (d.created_at ≡ v1.pairing.paired_at))
          s.devices
      × (All
          (λ c.
            (c.alert_rules ≡ v1.alert_rules)
            × (c.alert_state ≡ v1.alert_state)
            × (c.last_success_at ≡ v1.last_success_at)
            × (c.guid ≡ v1.controller.guid))
          s.controllers)
unfolding migrate_v1_to_v2 migrate_devices migrate_controllers paired controller_configured
migrate_v1_to_v2_lem new_id v1 =
    ((refl, refl, refl, refl, refl), devices.0, controllers.0, devices.1, controllers.1)
  where
    open v1 use {pairing, controller}

    devices :
        (any is_active (migrate_devices new_id v1) ≡ not (pairing.token_sha256 == ""))
        × All
            (λ d. (d.token_sha256 ≡ pairing.token_sha256) × (d.created_at ≡ pairing.paired_at))
            (migrate_devices new_id v1)
    devices = elim (Bool-cases (pairing.token_sha256 == "")) [
      | inl e ↦ rw (e, migrate_devices) (refl, tt)
      | inr e ↦ rw (e, migrate_devices) (refl, ((refl, refl), tt))
    ]

    controllers :
        (controller_configured (migrate_controllers v1) ≡ not (controller.lan_address == ""))
        × All
            (λ c.
              (c.alert_rules ≡ v1.alert_rules)
              × (c.alert_state ≡ v1.alert_state)
              × (c.last_success_at ≡ v1.last_success_at)
              × (c.guid ≡ controller.guid))
            (migrate_controllers v1)
    controllers = elim (Bool-cases (controller.lan_address == "")) [
      | inl e ↦ rw (e, migrate_controllers) (refl, tt)
      | inr e ↦ rw (e, migrate_controllers) (ground (arith, e), ((refl, refl, refl, refl), tt))
    ]

-- The device of a migrated document is an owner once its role is inferred: it founded the pairing.
pub migrated-owner :
    (new_id : String) (v1 : StateV1)
    → all is_owner (infer_legacy_roles (migrate_v1_to_v2 new_id v1)).0.devices ≡ true
unfolding migrate_v1_to_v2 migrate_devices infer_legacy_roles
migrated-owner new_id v1 = elim (Bool-cases (v1.pairing.token_sha256 == "")) [
  | inl e ↦ rw (e, migrate_devices) (unfold infer_devices in refl)
  | inr e ↦ rw (e, migrate_devices) (infer_devices-first _ _ refl)
]
