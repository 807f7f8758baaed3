-- ===== src/Store/Bound.antt =====
-- Writes that are bound to a household, and what a household reset forgets and keeps.
use poolpilot_relay.Prelude.{
  Bool, Bool-cases, Option, String, [], arith, false, if◌then◌else◌, inl, inr, is_some, none, not,
  refl, some, subst, sym, true, ◌&&◌, ◌==◌, ◌||◌, ◌≡◌, ◌⊎◌,
}
use poolpilot_relay.State.Document.{State}
use poolpilot_relay.State.Household.{enrolled, paired, reset_household}
use poolpilot_relay.State.Removals.{cap_outbox, cap_pending_removals}
use poolpilot_relay.Store.{
  Store, StoreError, after_drop, drop_household_if, holds_token, normalize, persist_failed, update,
  update_if_token, update_when,
}

-- Two documents that say the same of the household: all that a reset drops.
pub record SameHousehold (a b : State) : Type 0 where
  pub same_cloud : a.cloud ≡ b.cloud
  pub same_devices : a.devices ≡ b.devices
  pub same_controllers : a.controllers ≡ b.controllers
  pub same_secret : a.ctrl_session_secret ≡ b.ctrl_session_secret

-- And of the relay itself: all that a reset keeps.
pub record SameRelay (a b : State) : Type 0 where
  pub same_agent : a.agent_id ≡ b.agent_id
  pub same_tls : a.tls ≡ b.tls
  pub same_update : a.update ≡ b.update
  pub same_interval : a.poll_interval_seconds ≡ b.poll_interval_seconds
  pub same_recovery : a.recovery_window_used ≡ b.recovery_window_used
  pub same_seeded : a.cloud_sync_seeded ≡ b.cloud_sync_seeded

-- How a write that is bound to `still` may end, where `t` is the store as others left it at the
-- time of the write.
pub data BoundWrite (still : State → Bool) (fn : State → State) (st t r : Store)
    : Bool → Option StoreError → Type 0 where
  -- The binding did not hold at the first look: nothing ran.
  refused : r ≡ st → BoundWrite still fn st t r false none
  -- It holds at the write, and the result is saved.
  written :
      still t.doc ≡ true
      → t.wiped ≡ false
      → r.doc ≡ normalize (fn t.doc)
      → r.disk ≡ some r.doc
      → BoundWrite still fn st t r true none
  -- It no longer holds at the write: the document is saved as it was.
  lapsed : still t.doc ≡ false → r.doc ≡ normalize t.doc → BoundWrite still fn st t r false none
  -- The store was wiped meanwhile, or the file could not be written: nothing changes.
  failed : (ran : Bool) (e : StoreError) → r ≡ t → BoundWrite still fn st t r ran (some e)

write-BoundWrite :
    (still : State → Bool) (persists : Bool) (fn : State → State) (t st : Store)
    → let (r, e) = update persists (λ s. if still s then fn s else s) t in
      BoundWrite still fn st t r (not t.wiped && still t.doc) e
unfolding update
write-BoundWrite still true fn t st = grind (arith, written, lapsed, failed)
write-BoundWrite still false fn t st = grind (arith, failed)

-- Every bound write, whatever others did while the lock was released, ends in one of these ways:
-- in particular it applies its change only to a document for which the binding holds.
pub update_when-BoundWrite :
    (still : State → Bool) (persists : Bool) (fn : State → State) (t st : Store)
    → let (r, ran, e) = update_when still persists fn (λ _. t) st in
      BoundWrite still fn st t r ran e
unfolding update_when
update_when-BoundWrite still persists fn t st = elim (Bool-cases (st.wiped || not (still st.doc))) [
  | inl e ↦ rw (e, update_when) (refused refl)
  | inr e ↦ rw (e, update_when) (write-BoundWrite still persists fn t st)
]

reported :
    {still : State → Bool} {fn : State → State} {st t r : Store} {ran : Bool}
    {e : Option StoreError}
    → BoundWrite still fn st t r ran e
    → BoundWrite still fn st t r (ran && not (is_some e)) e
reported (refused s) = refused s
reported (written b w d k) = written b w d k
reported (lapsed b d) = lapsed b d
reported (failed ran e s) = failed _ e s

-- `UpdateIfToken` is such a write, bound to the frpc token: whatever others did while it looked, it
-- reports that the change was applied only if the document it changed still held that token, and
-- an empty token changes nothing.
pub update_if_token-BoundWrite :
    (token : String) (persists : Bool) (fn : State → State) (t st : Store)
    → let (r, applied, e) = update_if_token token persists fn (λ _. t) st in
      BoundWrite (holds_token token) fn st t r applied e
unfolding update_if_token
update_if_token-BoundWrite token persists fn t st = elim (Bool-cases (token == "")) [
  | inl e ↦ rw (e, update_if_token) (refused refl)
  | inr e ↦
      rw (e, update_if_token)
        (reported (update_when-BoundWrite (holds_token token) persists fn t st))
]

normalize-SameRelay : (s : State) → SameRelay (normalize (reset_household s)) s
unfolding normalize reset_household
normalize-SameRelay s = record {
  same_agent = refl;
  same_tls = refl;
  same_update = refl;
  same_interval = refl;
  same_recovery = refl;
  same_seeded = refl;
}

normalize-SameHousehold : (s : State) → SameHousehold (normalize s) s
unfolding normalize
normalize-SameHousehold s = record {
  same_cloud = refl;
  same_devices = refl;
  same_controllers = refl;
  same_secret = refl;
}

-- A relay that is ready for a new setup: nothing of a household is left, in memory or in the file.
pub record IsSetupReady (st : Store) : Type 0 where
  pub unpaired : paired st.doc ≡ false
  pub not_enrolled : enrolled st.doc ≡ false
  pub no_controllers : st.doc.controllers ≡ []
  pub no_alerts : st.doc.outbox ≡ []
  pub no_removals : st.doc.pending_device_removals ≡ []
  pub no_secret : st.doc.ctrl_session_secret ≡ ""
  pub saved : st.disk ≡ some st.doc

reset-IsSetupReady :
    (s : State) (r : Store)
    → r.doc ≡ normalize (reset_household s)
    → r.disk ≡ some r.doc
    → IsSetupReady r
unfolding normalize reset_household paired enrolled cap_outbox cap_pending_removals
reset-IsSetupReady s r e d = record {
  unpaired = rw e;
  not_enrolled = rw e;
  no_controllers = rw e;
  no_alerts = rw e;
  no_removals = rw e;
  no_secret = rw e;
  saved = d;
}

-- What a bound drop leaves of the store `t` that others left at the time of the write.
abbrev pub DropResult : (State → Bool) → Store → Store → Store → Bool → Option StoreError → Type 0
DropResult still st t r applied e =
    ((applied ≡ true) × (e ≡ none) × (still t.doc ≡ true) × IsSetupReady r × SameRelay r.doc t.doc)
    ⊎ (is_some e ≡ true) × (r ≡ t)
    ⊎ (applied ≡ false) × (e ≡ none) × ((r ≡ st) ⊎ SameHousehold r.doc t.doc)

drop-result :
    (still : State → Bool) (sweeps : Bool) {st t r : Store} {ran : Bool} {e : Option StoreError}
    → BoundWrite still reset_household st t r ran e
    → let (r', applied, e') = after_drop sweeps r ran e in DropResult still st t r' applied e'
unfolding after_drop
drop-result still sweeps (refused s) = inr (inr (refl, refl, inl s))
drop-result still sweeps {t = t} {r = r} (written b w d k) = inl (
  refl,
  refl,
  b,
  reset-IsSetupReady t.doc _ d k,
  subst (λ x. SameRelay x t.doc) (sym d) (normalize-SameRelay t.doc),
)
drop-result still sweeps {t = t} (lapsed b d) = inr (
    inr (
      refl,
      refl,
      inr (subst (λ x. SameHousehold x t.doc) (sym d) (normalize-SameHousehold t.doc)),
    ))
drop-result still sweeps (failed ran e s) = inr (inl (refl, s))

-- A bound drop, whatever others did while it looked, either clears the whole household of a
-- document for which the binding held, in memory and in the file, keeping the relay's identity and
-- settings; or it comes back with an error and changes nothing; or it reports no drop and leaves
-- the household as it was.
pub drop_household_if_lem :
    (still : State → Bool) (persists sweeps : Bool) (t st : Store)
    → let (r, applied, e) = drop_household_if still persists sweeps (λ _. t) st in
      DropResult still st t r applied e
unfolding drop_household_if
drop_household_if_lem still persists sweeps t st =
    drop-result still sweeps (update_when-BoundWrite still persists reset_household t st)

-- If the binding holds and the file cannot be written, `DropHouseholdIf` reports both that the
-- household was dropped and an error, although nothing changed.
pub drop_failed_reports_drop :
    (still : State → Bool) (sweeps : Bool) (st : Store)
    → st.wiped ≡ false
    → still st.doc ≡ true
    → drop_household_if still false sweeps (λ _. st) st ≡ (st, true, some persist_failed)
unfolding drop_household_if update_when update after_drop
drop_failed_reports_drop still sweeps st w b = ground arith
