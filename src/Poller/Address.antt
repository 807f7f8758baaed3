-- ===== src/Poller/Address.antt =====
-- internal/agent/poller/poller.go: the base URL of a controller, and the cadence that the
-- environment sets. `parse_duration` is time.ParseDuration, `none` where it errs.
use poolpilot_relay.Prelude.{
  Bool, Option, String, [], eqb, if◌then◌else◌, is_some, none, some, ◌&&◌, ◌++◌, ◌==◌, ◌||◌, ◌∷◌,
}
use poolpilot_relay.Go.Text.{Text, codes, cut_prefix, is_empty}
use poolpilot_relay.Go.Time.{Duration}
use poolpilot_relay.LanApi.Settings.{default_interval}
use poolpilot_relay.Prelude.Int.{leb_ℤ, pos}

-- `strings.TrimRight(s, "/")`, and `strings.Contains(s, sub)`.
unfoldable pub trim_slashes : Text → Text
trim_slashes [] = []
trim_slashes (c ∷ s) =
    let rest = trim_slashes s in if eqb c b'/' && is_empty rest then [] else c ∷ rest

unfoldable pub contains_text : Text → Text → Bool
contains_text sub [] = is_empty sub
contains_text sub (c ∷ s) = is_some (cut_prefix sub (c ∷ s)) || contains_text sub s

-- `ControllerBaseURL`, by the controller's lan_address and use_https.
unfoldable pub controller_base_url : Text → Bool → Text
unfolding trim_slashes contains_text
controller_base_url lan_address use_https =
    let addr = trim_slashes lan_address in
    if contains_text (codes "://") addr
    then addr
    else (if use_https then codes "https" else codes "http") ++ codes "://" ++ addr

-- `Interval()`, by the value of POLL_INTERVAL.
unfoldable pub interval : (String → Option Duration) → String → Option Duration
interval parse_duration raw =
    if raw == "" then some default_interval else elim (parse_duration raw) [
      | none ↦ none
      | some d ↦ if leb_ℤ d (pos 0) then none else some d
    ]

-- The cadence that `New` takes.
unfoldable pub new_interval : Duration → Duration
new_interval d = if leb_ℤ d (pos 0) then default_interval else d
