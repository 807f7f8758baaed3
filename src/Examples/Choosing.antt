-- ===== src/Examples/Choosing.antt =====
-- The choice of a release.
use poolpilot_relay.Prelude.{
  String, arith, eq_iff, false, none, refl, some, ℕ, ◌*◌, ◌+◌, ◌<◌, ◌≡◌, ◌≢◌, ◌≤◌, ◌⊎◌,
}
use poolpilot_relay.Examples.Data.{hour, household}
use poolpilot_relay.Go.Text.{codes}
use poolpilot_relay.Update.Agent.{
  Updater, apply_update, available_of, default_recheck, hour_ns, ingest, offered, slot_start,
  starts_stage, until_next_window,
}
use poolpilot_relay.Update.Agent.Choice.{rolled_back_blocked}
use poolpilot_relay.Update.Agent.Slot.{until_next_window-bounds}
use poolpilot_relay.Update.Version.{Version, compare_versions, parse_version}
use poolpilot_relay.Update.Version.Order.{compare_versions-weight, sign_of, weight}
use poolpilot_relay.Wire.Updates.{UpdateResult}

compare_versions-weight_example :
    ((v w : Version)
      → parse_version (codes "v1.9.0") ≡ some v
      → parse_version (codes "1.10.0") ≡ some w
      → compare_versions (codes "v1.9.0") (codes "1.10.0") ≡ some (sign_of (weight v) (weight w)))
    × ((parse_version (codes "v1.9.0") ≡ none) ⊎ (parse_version (codes "1.10.0") ≡ none)
        → compare_versions (codes "v1.9.0") (codes "1.10.0") ≡ none)
compare_versions-weight_example = compare_versions-weight (codes "v1.9.0") (codes "1.10.0")

abbrev some_agent : String
some_agent = "agent"

-- A hash that gives every id the same offset.
abbrev flat_hash : String → ℕ
flat_hash _ = 77

until_next_window-bounds_example :
    (wait : ℕ) × (until_next_window flat_hash some_agent 3 (hour 3) (hour 30) ≡ some wait)
    × (0 < wait)
    × ((wait ≤ 24 * hour_ns) ⊎ (hour 30 + wait ≡ slot_start (flat_hash some_agent) (hour 3)))
    × (some_agent ≡ "" → wait ≡ hour_ns)
until_next_window-bounds_example =
    until_next_window-bounds flat_hash some_agent (hour 3) (hour 30) (omega arith)

abbrev running : Updater
running = record {
  version = "v1.2.0";
  disabled = false;
  staging = false;
  recheck_after = default_recheck;
}

abbrev failure : UpdateResult
failure = record {
  status = "rolled_back";
  from = "v1.2.0";
  to = "v1.3.0";
  error = "unit_failed";
  finished_at = "";
}

rolled_back_blocked_example :
    let s' = ingest failure household in
    (offered s' ≢ "v1.3.0")
    × (apply_update false s' running ≢ starts_stage "v1.3.0")
    × (available_of running s' "v1.3.0" ≡ "")
rolled_back_blocked_example =
    rolled_back_blocked failure household running false refl (ground (arith, eq_iff "v1.3.0" ""))
