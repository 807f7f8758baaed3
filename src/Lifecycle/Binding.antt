-- ===== src/Lifecycle/Binding.antt =====
-- Where an answer lands, by what a bound write came to.
pub mod Landing
use poolpilot_relay.Prelude.{
  Bool, Option, String, false, none, refl, some, subst, sym, true, ◌==◌, ◌≡◌,
}
use poolpilot_relay.Go.Time.{Time, zero_time}
use poolpilot_relay.Lifecycle.Answer.{
  Answer, Env, World, after_park, after_reset, after_resume, answered, drop_answered, no_signal,
  park, resume, set_lifecycle, unknown_token,
}
use poolpilot_relay.Lifecycle.Watcher.{Watcher}
use poolpilot_relay.State.Document.{State}
use poolpilot_relay.State.Household.{reset_household}
use poolpilot_relay.Store.{
  Store, StoreError, after_drop, drop_household_if, holds_token, normalize, update_if_token,
  update_when,
}
use poolpilot_relay.Store.Bound.{
  BoundWrite, failed, lapsed, refused, update_if_token-BoundWrite, update_when-BoundWrite, written,
}
use poolpilot_relay.Wire.Status.{relay_state_deleted}

abbrev pub is_deleted : Answer → Bool
is_deleted unknown_token = false
is_deleted no_signal = false
is_deleted (answered resp) = resp.state == relay_state_deleted

-- The store that others left at the time of a bound write.
abbrev pub at_write : Env → Store → Store
at_write env st = env.meanwhile (env.asking st)

-- How a step may take the store `st` to `r`, for a question put with `token`.
pub data Landed (env : Env) (token : String) (st r : Store) : Type 0 where
  -- Nothing was asked, or nothing came of it.
  untouched : r ≡ st → Landed env token st r
  waited : r ≡ env.asking st → Landed env token st r
  -- The write failed, or the credentials changed before it: what others left stands.
  unsaved : r ≡ at_write env st → Landed env token st r
  overtaken :
      holds_token token (at_write env st).doc ≡ false
      → r.doc ≡ normalize (at_write env st).doc
      → Landed env token st r
  -- The tunnel of the very household is parked or resumed.
  marked :
      (lifecycle reason : String) (since : Time)
      → is_deleted env.answer ≡ false
      → holds_token token (at_write env st).doc ≡ true
      → r.doc ≡ normalize (set_lifecycle lifecycle reason since (at_write env st).doc)
      → Landed env token st r
  -- The very household is dropped, on the answer that it was deleted.
  forgotten :
      is_deleted env.answer ≡ true
      → holds_token token (at_write env st).doc ≡ true
      → r.doc ≡ normalize (reset_household (at_write env st).doc)
      → Landed env token st r

token_update :
    (token : String) (persists : Bool) (fn : State → State) (meanwhile : Store → Store) (u : Store)
    → let (r, applied, e) = update_if_token token persists fn meanwhile u in
      BoundWrite (holds_token token) fn u (meanwhile u) r applied e
unfolding update_if_token update_when
token_update token persists fn meanwhile u =
    update_if_token-BoundWrite token persists fn (meanwhile u) u

module _ (env : Env) (token : String) (st : Store) where
  abbrev pub u : Store
  u = env.asking st

  abbrev pub t : Store
  t = at_write env st

  abbrev pub Lands : World → Type 0
  Lands world = Landed env token st world.store

  marked-Landed :
      (lifecycle reason : String) (since : Time) {r : Store} {applied : Bool}
      {e : Option StoreError}
      → is_deleted env.answer ≡ false
      → BoundWrite (holds_token token) (set_lifecycle lifecycle reason since) u t r applied e
      → Landed env token st r
  marked-Landed l reason since alive (refused same) = waited same
  marked-Landed l reason since alive (written b w d k) = marked l reason since alive b d
  marked-Landed l reason since alive (lapsed b d) = overtaken b d
  marked-Landed l reason since alive (failed ran e same) = unsaved same

  forgotten-Landed :
      {r : Store} {applied : Bool} {e : Option StoreError}
      → is_deleted env.answer ≡ true
      → BoundWrite (holds_token token) reset_household u t r applied e
      → Landed env token st (after_drop env.sweeps r applied e).0
  unfolding after_drop
  forgotten-Landed dead_answer (refused same) = waited same
  forgotten-Landed dead_answer (written b w d k) = forgotten dead_answer b d
  forgotten-Landed dead_answer (lapsed b d) = overtaken b d
  forgotten-Landed dead_answer (failed ran e same) = unsaved same

  after_park-store :
      (w : Watcher) (res : Store × Bool × Option StoreError) → (after_park w res).store ≡ res.0
  unfolding after_park
  after_park-store w (r, applied, some e) = refl
  after_park-store w (r, false, none) = refl
  after_park-store w (r, true, none) = refl

  after_resume-store :
      (w : Watcher) (res : Store × Bool × Option StoreError) → (after_resume w res).store ≡ res.0
  unfolding after_resume
  after_resume-store w (r, applied, some e) = refl
  after_resume-store w (r, false, none) = refl
  after_resume-store w (r, true, none) = refl

  after_reset-store :
      (w : Watcher) (res : Store × Bool × Option StoreError) → (after_reset w res).store ≡ res.0
  unfolding after_reset
  after_reset-store w (r, applied, some e) = refl
  after_reset-store w (r, false, none) = refl
  after_reset-store w (r, true, none) = refl

  pub park-Landed :
      (lifecycle reason : String) (w : Watcher)
      → is_deleted env.answer ≡ false
      → Lands (park env token lifecycle reason w u)
  unfolding park
  park-Landed l reason w alive = subst (Landed env token st) (sym (after_park-store w _)) (
      marked-Landed l reason env.now alive
        (token_update token env.persists (set_lifecycle l reason env.now) env.meanwhile u))

  pub resume-Landed : (w : Watcher) → is_deleted env.answer ≡ false → Lands (resume env token w u)
  unfolding resume
  resume-Landed w alive = subst (Landed env token st) (sym (after_resume-store w _)) (
      marked-Landed "" "" zero_time alive
        (token_update token env.persists (set_lifecycle "" "" zero_time) env.meanwhile u))

  pub drop-Landed :
      (w : Watcher) → is_deleted env.answer ≡ true → Lands (drop_answered env token w u)
  unfolding drop_answered drop_household_if update_when
  drop-Landed w dead_answer = subst (Landed env token st) (sym (after_reset-store w _)) (
      forgotten-Landed dead_answer
        (update_when-BoundWrite (holds_token token) env.persists reset_household t u))
