-- ===== src/Lifecycle/Pacing.antt =====
-- The watcher's pacing: the bounds of its backoff and the spacing of its strikes.
pub mod Steady
pub mod Answers
pub mod Rounds
use poolpilot_relay.Prelude.{Bool-cases, List, [], arith, inl, inr, ltb, ◌*◌, ◌+◌, ◌∷◌, ◌≡◌, ◌≤◌}
use poolpilot_relay.Go.Int64.{mul64, wrap64}
use poolpilot_relay.Go.Time.{Duration, Time, nanoseconds, sub_time}
use poolpilot_relay.Lifecycle.Watcher.{
  Watcher, count_strike, minutes, next_backoff, unknown_spacing,
}
use poolpilot_relay.Prelude.Int.{ltb_ℤ, pos, ◌*ℤ◌, ◌≤ℤ◌}

-- Strikes, newest first, that follow one another by at least an hour.
abbrev pub SpacedFrom : Time → List Time → Type 0
SpacedFrom a [] = Unit {0}
SpacedFrom a (b ∷ older) = (b + 3600 * nanoseconds ≤ a) × SpacedFrom b older

abbrev pub Spaced : List Time → Type 0
Spaced [] = Unit {0}
Spaced (a ∷ older) = SpacedFrom a older

abbrev pub six_hours : Duration
six_hours = minutes 360

-- A backoff from nothing to six hours.
abbrev pub Backoff : Duration → Type 0
Backoff d = (pos 0 ≤ℤ d) × (d ≤ℤ six_hours)

pub record IsSteady (w : Watcher) : Type 0 where
  pub backoff_bounded : Backoff w.backoff
  pub strikes_spaced : Spaced w.strikes

spacing_lem :
    (now last : Time)
    → ltb_ℤ (sub_time now last) unknown_spacing ≡ ltb now (last + 3600 * nanoseconds)
unfolding sub_time
spacing_lem now last = ground arith

pub count_strike-Spaced :
    (now : Time) (strikes : List Time) → Spaced strikes → Spaced (count_strike now strikes)
unfolding count_strike
count_strike-Spaced now [] h = tt
count_strike-Spaced now (last ∷ older) h =
    elim (Bool-cases (ltb_ℤ (sub_time now last) unknown_spacing)) [
      | inl e ↦ rw (e, count_strike) h
      | inr e ↦ rw (e, count_strike) (ground (arith, e, spacing_lem now last), h)
    ]

pub next_backoff-Backoff :
    (b lo hi : Duration) → Backoff b → Backoff lo → Backoff hi → Backoff (next_backoff b lo hi)
unfolding next_backoff mul64 wrap64 ◌*ℤ◌
next_backoff-Backoff b lo hi hb hlo hhi = ground arith
