-- ===== src/Lifecycle/Pacing/Steady.antt =====
-- The pacing across the pieces of an answer's handling.
use poolpilot_relay.Prelude.{
  Bool, List, Option, String, arith, false, if◌then◌else◌, none, some, true,
}
use poolpilot_relay.Go.Time.{Duration, Time}
use poolpilot_relay.Lifecycle.Answer.{
  Effect, Env, World, after_park, after_reset, after_resume, only_watcher, park, rescheduled,
  without_backoff,
}
use poolpilot_relay.Lifecycle.Pacing.{Backoff, IsSteady, count_strike-Spaced, next_backoff-Backoff}
use poolpilot_relay.Lifecycle.Watcher.{
  Watcher, active_backoff_max, active_backoff_min, clear_strikes, count_strike, new_watcher,
  parked_backoff_max, parked_backoff_min, parked_cap, reset_backoff, reset_pacing, schedule,
}
use poolpilot_relay.Prelude.Int.{int_laws, pos}
use poolpilot_relay.Store.{Store, StoreError}

unfoldable pub SteadyWorld : World → Type 0
SteadyWorld world = IsSteady world.watcher

pub zero-Backoff : Backoff (pos 0)
zero-Backoff = (omega int_laws, omega int_laws)

pub new_watcher-IsSteady : IsSteady new_watcher
new_watcher-IsSteady = record { backoff_bounded = zero-Backoff; strikes_spaced = tt }

pub reset_pacing-IsSteady : (w : Watcher) → IsSteady (reset_pacing w)
unfolding reset_pacing
reset_pacing-IsSteady w = record { backoff_bounded = zero-Backoff; strikes_spaced = tt }

pub clear_strikes-IsSteady : (w : Watcher) → IsSteady w → IsSteady (clear_strikes w)
unfolding clear_strikes
clear_strikes-IsSteady w h = record { backoff_bounded = h.backoff_bounded; strikes_spaced = tt }

pub parked_cap-Backoff : (lifecycle : String) → Backoff (parked_cap lifecycle)
unfolding parked_cap
parked_cap-Backoff lifecycle = ground arith

pub after_park-IsSteady :
    (w : Watcher) (res : Store × Bool × Option StoreError)
    → IsSteady w
    → SteadyWorld (after_park w res)
unfolding after_park SteadyWorld
after_park-IsSteady w (r, applied, some e) h = h
after_park-IsSteady w (r, false, none) h = reset_pacing-IsSteady w
after_park-IsSteady w (r, true, none) h = h

pub after_resume-IsSteady :
    (w : Watcher) (res : Store × Bool × Option StoreError)
    → IsSteady w
    → SteadyWorld (after_resume w res)
unfolding after_resume SteadyWorld
after_resume-IsSteady w (r, applied, some e) h = h
after_resume-IsSteady w (r, false, none) h = reset_pacing-IsSteady w
after_resume-IsSteady w (r, true, none) h = reset_pacing-IsSteady w

pub after_reset-IsSteady :
    (w : Watcher) (res : Store × Bool × Option StoreError)
    → IsSteady w
    → SteadyWorld (after_reset w res)
unfolding after_reset SteadyWorld
after_reset-IsSteady w (r, applied, some e) h = h
after_reset-IsSteady w (r, false, none) h = reset_pacing-IsSteady w
after_reset-IsSteady w (r, true, none) h = reset_pacing-IsSteady w

module _ (env : Env) where
  pub only_watcher-IsSteady :
      (w : Watcher) (st : Store) → IsSteady w → SteadyWorld (only_watcher env w st)
  unfolding only_watcher SteadyWorld
  only_watcher-IsSteady w st h = h

  pub rescheduled-IsSteady :
      (lo hi : Duration) (world : World)
      → Backoff lo
      → Backoff hi
      → SteadyWorld world
      → SteadyWorld (rescheduled env lo hi world)
  unfolding rescheduled schedule SteadyWorld
  rescheduled-IsSteady lo hi world l h s = record {
    backoff_bounded = next_backoff-Backoff world.watcher.backoff lo hi s.backoff_bounded l h;
    strikes_spaced = s.strikes_spaced;
  }

  pub without_backoff-IsSteady :
      (world : World) → SteadyWorld world → SteadyWorld (without_backoff env world)
  unfolding without_backoff reset_backoff SteadyWorld
  without_backoff-IsSteady world s = record {
    backoff_bounded = zero-Backoff;
    strikes_spaced = s.strikes_spaced;
  }

  pub with_effects-Steady :
      (world : World) (effects : List Effect)
      → SteadyWorld world
      → SteadyWorld (record world { effects = effects })
  unfolding SteadyWorld
  with_effects-Steady world effects s = s

  pub park-IsSteady :
      (token lifecycle reason : String) (w : Watcher) (st : Store)
      → IsSteady w
      → SteadyWorld (park env token lifecycle reason w st)
  unfolding park
  park-IsSteady token lifecycle reason w st h = after_park-IsSteady w _ h

  pub branch-Steady :
      (b : Bool) (x y : World) → SteadyWorld x → SteadyWorld y → SteadyWorld (if b then x else y)
  branch-Steady true x y h k = h
  branch-Steady false x y h k = k

  pub parked_lo : Backoff parked_backoff_min
  parked_lo = (omega int_laws, omega int_laws)

  pub parked_hi : Backoff parked_backoff_max
  parked_hi = (omega int_laws, omega int_laws)

  pub active_lo : Backoff active_backoff_min
  active_lo = (omega int_laws, omega int_laws)

  pub active_hi : Backoff active_backoff_max
  active_hi = (omega int_laws, omega int_laws)

  pub struck-IsSteady :
      (w : Watcher) → IsSteady w → IsSteady (record w { strikes = count_strike env.now w.strikes })
  struck-IsSteady w h = record {
    backoff_bounded = h.backoff_bounded;
    strikes_spaced = count_strike-Spaced env.now w.strikes h.strikes_spaced;
  }

  pub asked_later-IsSteady :
      (w : Watcher) (at : Time) → IsSteady w → IsSteady (record w { next_ask = at })
  asked_later-IsSteady w at h = record {
    backoff_bounded = h.backoff_bounded;
    strikes_spaced = h.strikes_spaced;
  }
