-- ===== src/State/Migrate.antt =====
-- internal/agent/state/migrate.go: from the first schema to the second. Open decodes the document;
-- the new device's id is random, a parameter.
pub mod Preserved
use poolpilot_relay.Prelude.{Bool, List, Map, String, [], if◌then◌else◌, ◌==◌, ◌∷◌}
use poolpilot_relay.Alert.Engine.{RuleState}
use poolpilot_relay.Go.Time.{Time, zero_time}
use poolpilot_relay.Prelude.Int.{ℤ}
use poolpilot_relay.State.Document.{
  Cloud, Controller, Device, State, Tls, fresh_state, no_controller,
}
use poolpilot_relay.Wire.Alerts.{AlertRequest, AlertRule}

pub record PairingV1 : Type 0 where
  pub token_sha256 : String
  pub paired_at : Time
  pub device_name : String

pub record ControllerV1 : Type 0 where
  pub preset : String
  pub lan_address : String
  pub username : String
  pub password : String
  pub use_https : Bool
  pub label : String
  pub guid : String
  pub remote_url : String
  pub remote_api_url : String

pub record StateV1 : Type 0 where
  pub version : ℤ
  pub agent_id : String
  pub pairing : PairingV1
  pub cloud : Cloud
  pub controller : ControllerV1
  pub alert_rules : List AlertRule
  pub alert_state : Map RuleState
  pub last_success_at : Time
  pub outbox : List AlertRequest
  pub tls : Tls

unfoldable pub migrate_devices : String → StateV1 → List Device
migrate_devices new_id v1 =
    if v1.pairing.token_sha256 == ""
    then []
    else record {
      id = new_id;
      label = v1.pairing.device_name;
      token_sha256 = v1.pairing.token_sha256;
      created_at = v1.pairing.paired_at;
      revoked_at = zero_time;
      role = "";
    }
      ∷ []

unfoldable pub migrate_controllers : StateV1 → List Controller
migrate_controllers v1 =
    if v1.controller.lan_address == ""
    then []
    else record no_controller {
      preset = v1.controller.preset;
      lan_address = v1.controller.lan_address;
      username = v1.controller.username;
      password = v1.controller.password;
      use_https = v1.controller.use_https;
      label = v1.controller.label;
      guid = v1.controller.guid;
      remote_url = v1.controller.remote_url;
      remote_api_url = v1.controller.remote_api_url;
      alert_rules = v1.alert_rules;
      alert_state = v1.alert_state;
      last_success_at = v1.last_success_at;
    }
      ∷ []

unfoldable pub migrate_v1_to_v2 : String → StateV1 → State
unfolding fresh_state
migrate_v1_to_v2 new_id v1 = record (fresh_state v1.agent_id) {
  cloud = v1.cloud;
  outbox = v1.outbox;
  tls = v1.tls;
  devices = migrate_devices new_id v1;
  controllers = migrate_controllers v1;
}
