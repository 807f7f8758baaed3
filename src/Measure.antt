-- ===== src/Measure.antt =====
-- internal/measure/measure.go: the controller-neutral shapes of a reading and of a controller's
-- regulation config.
use poolpilot_relay.Prelude.{Bool, String}
use poolpilot_relay.Go.Float64.{Float64}

pub record Reading : Type 0 where
  pub type : String
  pub value : Float64
  pub unit : String
  pub label : String
  pub key : String

pub record ControlConfig : Type 0 where
  pub target : Float64
  pub min : Float64
  pub max : Float64
  pub ok_low : Float64
  pub ok_high : Float64
  pub has_ok_zone : Bool
  pub unbanded : Bool
