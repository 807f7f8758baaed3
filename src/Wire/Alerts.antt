-- ===== src/Wire/Alerts.antt =====
-- wire/wire.go: alert rules and the alerts that they raise.
use poolpilot_relay.Prelude.{Bool, List, Option, String}
use poolpilot_relay.Bands.{BandsConfig}
use poolpilot_relay.Go.Float64.{Float64}
use poolpilot_relay.Prelude.Int.{ℤ}

abbrev pub kind_measurement_band : String
kind_measurement_band = "measurement_band"

abbrev pub kind_stale_data : String
kind_stale_data = "stale_data"

abbrev pub transition_enter : String
transition_enter = "enter"

abbrev pub transition_renotify : String
transition_renotify = "renotify"

abbrev pub transition_recover : String
transition_recover = "recover"

pub record AlertRule : Type 0 where
  pub id : String
  pub kind : String
  pub enabled : Bool
  pub source : String
  pub measurement_type : String
  pub bands : Option BandsConfig
  pub ok_tolerance : Float64
  pub default_ok_tolerance : Float64
  pub notify_severities : List String
  pub debounce_polls : ℤ
  pub stale_after_seconds : ℤ
  pub cooldown_seconds : ℤ
  pub notify_recovery : Bool

pub record AlertRequest : Type 0 where
  pub controller_guid : String
  pub rule_id : String
  pub kind : String
  pub measurement_type : String
  pub severity : String
  pub transition : String
  pub value : Float64
  pub unit : String
  pub label : String
  pub pool_label : String
  pub occurred_at : String
