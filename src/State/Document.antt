-- ===== src/State/Document.antt =====
-- internal/agent/state/state.go: the document.
use poolpilot_relay.Prelude.{Bool, List, Map, Option, String, [], false, none, ℕ, ◌==◌}
use poolpilot_relay.Alert.Engine.{RuleState}
use poolpilot_relay.Go.Time.{Time, is_zero, zero_time}
use poolpilot_relay.Prelude.Int.{pos, ℤ}
use poolpilot_relay.Wire.Alerts.{AlertRequest, AlertRule}
use poolpilot_relay.Wire.Updates.{UpdateAdvisory, UpdateResult}

abbrev pub schema_version : ℤ
schema_version = pos 2

abbrev pub outbox_limit : ℕ
outbox_limit = 50

abbrev pub pending_removal_limit : ℕ
pending_removal_limit = 50

abbrev pub role_owner : String
role_owner = "owner"

abbrev pub role_member : String
role_member = "member"

abbrev pub lifecycle_suspended : String
lifecycle_suspended = "suspended"

abbrev pub lifecycle_unknown : String
lifecycle_unknown = "unknown"

pub record PendingDeviceRemoval : Type 0 where
  pub device_id : String
  pub created_at : Time
  pub attempts : ℤ
  pub next_attempt_at : Time
  pub cloud_identity : String

pub record Device : Type 0 where
  pub id : String
  pub label : String
  pub token_sha256 : String
  pub created_at : Time
  pub revoked_at : Time
  pub role : String

unfoldable pub is_owner : Device → Bool
is_owner d = d.role == role_owner

-- A device that was never revoked.
abbrev pub is_active : Device → Bool
is_active d = is_zero d.revoked_at

pub record Frps : Type 0 where
  pub server_addr : String
  pub server_port : ℤ
  pub subdomain_host : String
  pub auth_token : String
  pub ca_pem : String
  pub server_name : String

pub record Cloud : Type 0 where
  pub base_url : String
  pub frpc_token : String
  pub frps : Frps
  pub lifecycle : String
  pub lifecycle_reason : String
  pub lifecycle_since : Time

pub record Controller : Type 0 where
  pub preset : String
  pub lan_address : String
  pub username : String
  pub password : String
  pub use_https : Bool
  pub label : String
  pub guid : String
  pub remote_url : String
  pub remote_api_url : String
  pub remote_e2e_url : String
  pub remote_api_e2e_url : String
  pub cloud_sync_pending : Bool
  pub config_rev : ℕ
  pub alert_rules : List AlertRule
  pub alert_state : Map RuleState
  pub last_success_at : Time

pub record Tls : Type 0 where
  pub cert_pem : String
  pub key_pem : String

pub record UpdateSettings : Type 0 where
  pub auto_disabled : Bool
  pub bad_version : String
  pub last_result : Option UpdateResult
  pub last_available : String
  pub last_advisory : Option UpdateAdvisory
  pub last_check : String

pub record State : Type 0 where
  pub version : ℤ
  pub agent_id : String
  pub devices : List Device
  pub cloud : Cloud
  pub controllers : List Controller
  pub cloud_sync_seeded : Bool
  pub outbox : List AlertRequest
  pub tls : Tls
  pub ctrl_session_secret : String
  pub recovery_window_used : ℤ
  pub update : UpdateSettings
  pub poll_interval_seconds : ℤ
  pub pending_device_removals : List PendingDeviceRemoval

-- The zero values.
abbrev pub no_frps : Frps
no_frps = record {
  server_addr = "";
  server_port = pos 0;
  subdomain_host = "";
  auth_token = "";
  ca_pem = "";
  server_name = "";
}

abbrev pub no_cloud : Cloud
no_cloud = record {
  base_url = "";
  frpc_token = "";
  frps = no_frps;
  lifecycle = "";
  lifecycle_reason = "";
  lifecycle_since = zero_time;
}

abbrev pub no_controller : Controller
no_controller = record {
  preset = "";
  lan_address = "";
  username = "";
  password = "";
  use_https = false;
  label = "";
  guid = "";
  remote_url = "";
  remote_api_url = "";
  remote_e2e_url = "";
  remote_api_e2e_url = "";
  cloud_sync_pending = false;
  config_rev = 0;
  alert_rules = [];
  alert_state = [];
  last_success_at = zero_time;
}

abbrev pub no_updates : UpdateSettings
no_updates = record {
  auto_disabled = false;
  bad_version = "";
  last_result = none;
  last_available = "";
  last_advisory = none;
  last_check = "";
}

-- A document that was just minted.
unfoldable pub fresh_state : String → State
fresh_state agent_id = record {
  version = schema_version;
  agent_id = agent_id;
  devices = [];
  cloud = no_cloud;
  controllers = [];
  cloud_sync_seeded = false;
  outbox = [];
  tls = record { cert_pem = ""; key_pem = "" };
  ctrl_session_secret = "";
  recovery_window_used = pos 0;
  update = no_updates;
  poll_interval_seconds = pos 0;
  pending_device_removals = [];
}
