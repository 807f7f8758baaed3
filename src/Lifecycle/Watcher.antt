-- ===== src/Lifecycle/Watcher.antt =====
-- The watcher's memory, its pacing and its rate limits. Run's goroutine is the only one that takes
-- steps; Kick and Probe touch fields that a step reads once, at its start.
use poolpilot_relay.Prelude.{
  Bool, List, String, [], any, false, if◌then◌else◌, not, true, ℕ, ◌&&◌, ◌*◌, ◌==◌, ◌||◌, ◌∷◌,
}
use poolpilot_relay.Go.Int64.{add64, mul64}
use poolpilot_relay.Go.Time.{
  Duration, Time, add_time, before, is_zero, nanoseconds, sub_time, zero_time,
}
use poolpilot_relay.Prelude.Int.{ltb_ℤ, pos}
use poolpilot_relay.State.Document.{State, lifecycle_unknown}
use poolpilot_relay.State.Household.{tunnel_parked}

-- `k` minutes in nanoseconds.
abbrev pub minutes : ℕ → Duration
minutes k = pos (k * 60 * nanoseconds)

abbrev pub down_grace : Duration
down_grace = minutes 2

abbrev pub active_backoff_min : Duration
active_backoff_min = minutes 2

abbrev pub active_backoff_max : Duration
active_backoff_max = minutes 60

abbrev pub no_signal_backoff_max : Duration
no_signal_backoff_max = minutes 360

abbrev pub parked_backoff_min : Duration
parked_backoff_min = minutes 15

abbrev pub parked_backoff_max : Duration
parked_backoff_max = minutes 360

abbrev pub unknown_parked_backoff_max : Duration
unknown_parked_backoff_max = minutes 60

abbrev pub unknown_strikes : ℕ
unknown_strikes = 3

abbrev pub unknown_spacing : Duration
unknown_spacing = minutes 60

abbrev pub kick_min_interval : Duration
kick_min_interval = minutes 1

abbrev pub idle_probe_every : Duration
idle_probe_every = minutes 1440

-- The fields of `Watcher` that are not wiring; `strikes` is kept newest first.
pub record Watcher : Type 0 where
  pub last_kick : Time
  pub last_probe : Time
  pub probe_pending : Bool
  pub next_idle_probe : Time
  pub down_since : Time
  pub next_ask : Time
  pub backoff : Duration
  pub strikes : List Time

-- `New`.
abbrev pub new_watcher : Watcher
new_watcher = record {
  last_kick = zero_time;
  last_probe = zero_time;
  probe_pending = false;
  next_idle_probe = zero_time;
  down_since = zero_time;
  next_ask = zero_time;
  backoff = pos 0;
  strikes = [];
}

-- `Kick`, and whether it sends on the channel.
unfoldable pub kick : State → Time → Watcher → Watcher × Bool
kick s now w =
    if not (tunnel_parked s)
    then (w, false)
    else if not (is_zero w.last_kick) && ltb_ℤ (sub_time now w.last_kick) kick_min_interval
    then (w, false)
    else (record w { last_kick = now }, true)

-- `Probe`, and whether it sends on the channel.
unfoldable pub probe : Time → Watcher → Watcher × Bool
probe now w =
    if not (is_zero w.last_probe) && ltb_ℤ (sub_time now w.last_probe) kick_min_interval
    then (w, false)
    else (record w { probe_pending = true }, true)

-- One backoff step, before the jitter.
unfoldable pub next_backoff : Duration → Duration → Duration → Duration
next_backoff backoff lo hi =
    let doubled = mul64 backoff (pos 2) in
    if ltb_ℤ backoff lo then lo else if ltb_ℤ hi doubled then hi else doubled

-- `schedule`; `jitter` is what the random generator makes of a backoff.
unfoldable pub schedule : (Duration → Duration) → Time → Duration → Duration → Watcher → Watcher
schedule jitter now lo hi w =
    let backoff = next_backoff w.backoff lo hi in
    record w { backoff = backoff; next_ask = add_time now (add64 backoff (jitter backoff)) }

unfoldable pub reset_backoff : Watcher → Watcher
reset_backoff w = record w { backoff = pos 0 }

unfoldable pub clear_strikes : Watcher → Watcher
clear_strikes w = record w { strikes = [] }

-- `resetPacing(true)`: every call of it forgets the strikes too.
unfoldable pub reset_pacing : Watcher → Watcher
reset_pacing w = record w {
  down_since = zero_time;
  next_ask = zero_time;
  backoff = pos 0;
  strikes = [];
}

unfoldable pub parked_cap : String → Duration
parked_cap lifecycle =
    if lifecycle == lifecycle_unknown then unknown_parked_backoff_max else parked_backoff_max

unfoldable pub has_tunnel : State → Bool
has_tunnel s = any (λ c. not (c.lan_address == "") && not (c.guid == "")) s.controllers

-- The first part of `onUnknown`: a strike counts if it comes late enough after the last one.
unfoldable pub count_strike : Time → List Time → List Time
count_strike now [] = now ∷ []
count_strike now (last ∷ older) =
    if ltb_ℤ (sub_time now last) unknown_spacing then last ∷ older else now ∷ last ∷ older

-- `idleProbeDue`; `first` is the random delay of the first idle probe.
unfoldable pub idle_probe_due : Duration → Time → Watcher → Watcher × Bool
idle_probe_due first now w =
    if is_zero w.next_idle_probe
    then (record w { next_idle_probe = add_time now first }, false)
    else if before now w.next_idle_probe
        || (not (is_zero w.last_probe) && ltb_ℤ (sub_time now w.last_probe) kick_min_interval)
    then (w, false)
    else (w, true)
