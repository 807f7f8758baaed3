-- ===== src/Bands/Scale.antt =====
-- What the scale of a valid config grades.
use poolpilot_relay.Prelude.{arith, eq_iff, false, true, ◌↔◌, ◌≡◌, ◌≢◌, ◌⊎◌}
use poolpilot_relay.Bands.{
  BandsConfig, banded, is_monotonic, severity_at, severity_bad, severity_ok, severity_warn,
}
use poolpilot_relay.Go.Float64.{Float64, fle, flt, is_nan}

ok_ne_bad : severity_ok ≢ severity_bad
ok_ne_bad e = ground (arith, eq_iff "ok" "bad")

ok_ne_warn : severity_ok ≢ severity_warn
ok_ne_warn e = ground (arith, eq_iff "ok" "warn")

warn_ne_bad : severity_warn ≢ severity_bad
warn_ne_bad e = ground (arith, eq_iff "warn" "bad")

-- Of a config that validates, the value is graded by the region that it lies in, a boundary
-- value with the region above it: bad below `min` and from `max`, ok from `ok_min` up to
-- `ok_max`, and warn in the two regions between.
pub severity_at-banded :
    (c : BandsConfig) (v : Float64)
    → is_monotonic c ≡ true
    → is_nan v ≡ false
    → let s = severity_at (banded c) v in
      ((s ≡ severity_bad) ↔ ((flt v c.min ≡ true) ⊎ (fle c.max v ≡ true)))
      × ((s ≡ severity_ok) ↔ ((fle c.ok_min v ≡ true) × (flt v c.ok_max ≡ true)))
      × ((s ≡ severity_warn) ↔ (
          ((fle c.min v ≡ true) × (flt v c.ok_min ≡ true))
          ⊎ ((fle c.ok_max v ≡ true) × (flt v c.max ≡ true))))
unfolding severity_at banded is_monotonic
severity_at-banded c v m n = ground (arith, ok_ne_bad, ok_ne_warn, warn_ne_bad)

-- A reading that is no number fails every comparison and is graded bad.
pub severity_at-nan :
    (c : BandsConfig) (v : Float64) → is_nan v ≡ true → severity_at (banded c) v ≡ severity_bad
unfolding severity_at banded
severity_at-nan c v n = ground arith
