-- ===== src/Alert/Control/Derived.antt =====
-- The bands that are derived from a controller's live config.
use poolpilot_relay.Prelude.{arith, false, if◌then◌else◌, some, true, ◌↔◌, ◌≡◌}
use poolpilot_relay.Alert.Control.{bands_from_control, clamped_bands}
use poolpilot_relay.Bands.{BandsConfig, banded, is_monotonic, severity_at, severity_ok}
use poolpilot_relay.Bands.Scale.{severity_at-banded}
use poolpilot_relay.Go.Float64.{Float64, fle, flt, is_nan}
use poolpilot_relay.Measure.{ControlConfig}

-- The OK zone of a clamped config is the corridor cut down to the limits.
clamped_zone :
    (cc : ControlConfig) (lo hi : Float64) (cfg : BandsConfig) (v : Float64)
    → clamped_bands cc lo hi ≡ some cfg
    → ((fle cfg.ok_min v ≡ true) × (flt v cfg.ok_max ≡ true))
      ↔ (((fle lo v ≡ true) × (flt v hi ≡ true)) × ((fle cc.min v ≡ true) × (flt v cc.max ≡ true)))
unfolding clamped_bands is_monotonic
clamped_zone cc lo hi cfg v e = ground arith

clamped_bands-lem :
    (cc : ControlConfig) (lo hi : Float64) (cfg : BandsConfig)
    → clamped_bands cc lo hi ≡ some cfg
    → fle cc.max cc.min ≡ false
    → (is_monotonic cfg ≡ true)
      × (cfg.min ≡ cc.min)
      × (cfg.max ≡ cc.max)
      × (flt cc.min cc.max ≡ true)
unfolding clamped_bands is_monotonic
clamped_bands-lem cc lo hi cfg e m = ground arith

module _ (fadd fsub : Float64 → Float64 → Float64) (cc : ControlConfig) (tol : Float64) where
  -- A band derived from a controller's config has thresholds in order and the controller's own
  -- limits as its ends, and comes only from a config that is not marked unbanded and whose limits
  -- enclose a range that is not empty.
  pub bands_from_control_sound :
      (cfg : BandsConfig)
      → bands_from_control fadd fsub cc tol ≡ some cfg
      → (is_monotonic cfg ≡ true)
        × (cfg.min ≡ cc.min)
        × (cfg.max ≡ cc.max)
        × (flt cc.min cc.max ≡ true)
        × (cc.unbanded ≡ false)
  unfolding bands_from_control
  bands_from_control_sound cfg e = ground (
    arith,
    clamped_bands-lem cc cc.ok_low cc.ok_high cfg,
    clamped_bands-lem cc (fsub cc.target tol) (fadd cc.target tol) cfg,
  )

  -- The ends of the OK zone before it is clamped.
  abbrev zone_low : Float64
  zone_low = if cc.has_ok_zone then cc.ok_low else fsub cc.target tol

  abbrev zone_high : Float64
  zone_high = if cc.has_ok_zone then cc.ok_high else fadd cc.target tol

  -- A value that is a number is graded ok by a derived band exactly when it lies both in the OK
  -- zone (the explicit corridor, else the setpoint ± the tolerance) and inside the controller's
  -- limits, the lower ends included.
  pub severity-ok_iff :
      (cfg : BandsConfig) (v : Float64)
      → bands_from_control fadd fsub cc tol ≡ some cfg
      → is_nan v ≡ false
      → (severity_at (banded cfg) v ≡ severity_ok) ↔ (
          ((fle zone_low v ≡ true) × (flt v zone_high ≡ true))
          × ((fle cc.min v ≡ true) × (flt v cc.max ≡ true)))
  unfolding bands_from_control
  severity-ok_iff cfg v e n =
      let sound = bands_from_control_sound cfg e in
      let zone = clamped_zone cc zone_low zone_high cfg v (ground arith) in
      let graded = (severity_at-banded cfg v sound.0 n).1 in
      (λ s. zone.0 (graded.0 s), λ z. graded.1 (zone.1 z))
