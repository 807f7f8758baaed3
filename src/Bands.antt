-- ===== src/Bands.antt =====
-- bands/bands.go: the severity scale of a measurement.
pub mod Scale
use poolpilot_relay.Prelude.{Bool, List, String, [], if◌then◌else◌, ◌&&◌, ◌==◌, ◌||◌, ◌∷◌}
use poolpilot_relay.Go.Float64.{Float64, fle, flt}

abbrev pub severity_ok : String
severity_ok = "ok"

abbrev pub severity_warn : String
severity_warn = "warn"

abbrev pub severity_bad : String
severity_bad = "bad"

abbrev pub type_ph : String
type_ph = "ph"

abbrev pub type_orp : String
type_orp = "orp_mv"

abbrev pub type_chlorine : String
type_chlorine = "chlorine_mg_l"

pub record Stop : Type 0 where
  pub threshold : Float64
  pub severity : String

pub record Banded : Type 0 where
  pub base_severity : String
  pub stops : List Stop

pub record BandsConfig : Type 0 where
  pub min : Float64
  pub ok_min : Float64
  pub ok_max : Float64
  pub max : Float64

-- The loop of `SeverityAt`, with its variable `current`.
severity_from : String → List Stop → Float64 → String
severity_from current [] value = current
severity_from current (stop ∷ stops) value =
    let rest = severity_from stop.severity stops value in
    if flt value stop.threshold then current else rest

unfoldable pub severity_at : Banded → Float64 → String
unfolding severity_from
severity_at b value = severity_from b.base_severity b.stops value

-- `Validate() == nil`.
unfoldable pub is_monotonic : BandsConfig → Bool
is_monotonic c = fle c.min c.ok_min && (fle c.ok_min c.ok_max && fle c.ok_max c.max)

unfoldable pub banded : BandsConfig → Banded
banded c = record {
  base_severity = severity_bad;
  stops =
      record { threshold = c.min; severity = severity_warn }
      ∷ record { threshold = c.ok_min; severity = severity_ok }
      ∷ record { threshold = c.ok_max; severity = severity_warn }
      ∷ record { threshold = c.max; severity = severity_bad }
      ∷ [];
}

-- The keys of `Defaults`: the measurement types that can be banded.
unfoldable pub is_banded_type : String → Bool
is_banded_type t = (type_ph == t) || ((type_orp == t) || (type_chlorine == t))
