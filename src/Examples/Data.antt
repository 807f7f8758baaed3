-- ===== src/Examples/Data.antt =====
-- The rules, readings, devices and documents of the examples.
use poolpilot_relay.Prelude.{String, [], false, none, some, true, ℕ, ◌*◌, ◌+◌, ◌∷◌}
use poolpilot_relay.Bands.{BandsConfig, severity_bad, type_ph}
use poolpilot_relay.Go.Float64.{Float64, f_fifth, f_zero}
use poolpilot_relay.Go.Time.{Time, nanoseconds, zero_time}
use poolpilot_relay.Measure.{ControlConfig, Reading}
use poolpilot_relay.Prelude.Int.{pos}
use poolpilot_relay.State.Document.{
  Controller, Device, State, no_cloud, no_controller, no_updates, schema_version,
}
use poolpilot_relay.Store.{Store}
use poolpilot_relay.Wire.Alerts.{AlertRule, kind_measurement_band, kind_stale_data}

abbrev pub clock : Time → String
clock t = "2026-09-01T12:00:00Z"

-- 2026-09-01T00:00:00Z and the hours after it.
abbrev pub hour : ℕ → Time
hour n = (63923817600 + n * 3600) * nanoseconds

abbrev pub ph_rule : AlertRule
ph_rule = record {
  id = "default-ph";
  kind = kind_measurement_band;
  enabled = true;
  source = "default";
  measurement_type = type_ph;
  bands = none;
  ok_tolerance = f_fifth;
  default_ok_tolerance = f_zero;
  notify_severities = severity_bad ∷ [];
  debounce_polls = pos 3;
  stale_after_seconds = pos 0;
  cooldown_seconds = pos 21600;
  notify_recovery = true;
}

abbrev pub user_rule : AlertRule
user_rule = record ph_rule { id = "mine"; source = "user"; measurement_type = "temperature_c" }

abbrev pub stale_rule_1h : AlertRule
stale_rule_1h = record ph_rule {
  id = "default-stale";
  kind = kind_stale_data;
  measurement_type = "";
  notify_severities = [];
  stale_after_seconds = pos 3600;
}

abbrev pub float : ℕ → Float64
float b = record { bits = b }

-- 6, 7, 7.1, 7.2, 7.4 and 8.
abbrev pub ph_6 : Float64
ph_6 = float 0x4018_0000_0000_0000

abbrev pub ph_7 : Float64
ph_7 = float 0x401c_0000_0000_0000

abbrev pub ph_7_1 : Float64
ph_7_1 = float 0x401c_6666_6666_6666

abbrev pub ph_7_2 : Float64
ph_7_2 = float 0x401c_cccc_cccc_cccd

abbrev pub ph_7_4 : Float64
ph_7_4 = float 0x401d_9999_9999_999a

abbrev pub ph_8 : Float64
ph_8 = float 0x4020_0000_0000_0000

-- The one sum and the one difference that the examples need.
abbrev pub upper : Float64 → Float64 → Float64
upper target tol = ph_7_4

abbrev pub lower : Float64 → Float64 → Float64
lower target tol = ph_7

abbrev pub ph_control : ControlConfig
ph_control = record {
  target = ph_7_2;
  min = ph_6;
  max = ph_8;
  ok_low = f_zero;
  ok_high = f_zero;
  has_ok_zone = false;
  unbanded = false;
}

abbrev pub ph_bands : BandsConfig
ph_bands = record { min = ph_6; ok_min = ph_7; ok_max = ph_7_4; max = ph_8 }

abbrev pub ph_reading : Reading
ph_reading = record { type = type_ph; value = ph_8; unit = ""; label = "pH"; key = "ph" }

abbrev pub founder : Device
founder = record {
  id = "d1";
  label = "phone";
  token_sha256 = "aa";
  created_at = hour 0;
  revoked_at = zero_time;
  role = "";
}

abbrev pub guest : Device
guest = record founder { id = "d2"; token_sha256 = "bb"; created_at = hour 2 }

abbrev pub pool : Controller
pool = record no_controller { lan_address = "http://192.168.1.5"; guid = "g1" }

abbrev pub spa : Controller
spa = record no_controller { lan_address = "http://192.168.1.6"; guid = "g2" }

abbrev pub household : State
household = record {
  version = schema_version;
  agent_id = "agent";
  devices = founder ∷ guest ∷ [];
  cloud = record no_cloud { frpc_token = "t1" };
  controllers = pool ∷ spa ∷ [];
  cloud_sync_seeded = true;
  outbox = [];
  tls = record { cert_pem = "cert"; key_pem = "key" };
  ctrl_session_secret = "s1";
  recovery_window_used = pos 0;
  update = no_updates;
  poll_interval_seconds = pos 60;
  pending_device_removals = [];
}

abbrev pub home : Store
home = record { doc = household; wiped = false; disk = some household; stale_copies = true }
