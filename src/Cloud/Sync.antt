-- ===== src/Cloud/Sync.antt =====
-- internal/agent/cloud/cloud.go: the sync of the controllers' configurations. A push carries what
-- the world answers to one controller of a round: the cloud's answer, whether the clear persists,
-- and what others do to the store while the request is out.
pub mod Cleared
pub mod Settled
use poolpilot_relay.Prelude.{
  Bool, List, Option, String, [], eqb, false, if◌then◌else◌, none, not, some, suc, zero, ℕ, ◌&&◌,
  ◌==◌, ◌||◌, ◌∷◌,
}
use poolpilot_relay.Cloud.Calls.{CloudAnswer, CloudError, is_rejected, update_result}
use poolpilot_relay.Cloud.Flight.{Visit, single_flight}
use poolpilot_relay.State.Controllers.{modify_controller}
use poolpilot_relay.State.Document.{Controller, State}
use poolpilot_relay.State.Household.{enrolled, tunnel_parked}
use poolpilot_relay.Store.{Store, StoreError, update}

abbrev pub max_sync_rounds : ℕ
max_sync_rounds = 4

pub record Push : Type 0 where
  pub answer : CloudAnswer {0} Unit
  pub persists : Bool
  pub meanwhile : Store → Store

-- The closure that clears a flag, unless the configuration changed again.
unfoldable pub clear_pending : String → ℕ → State → State
clear_pending guid rev s = record s {
  controllers =
      modify_controller guid
        (λ c. if eqb c.config_rev rev then record c { cloud_sync_pending = false } else c)
        s.controllers;
}

-- Whether the round is about the controller.
unfoldable pub needs_sync : Controller → Bool
needs_sync c = c.cloud_sync_pending && not (c.guid == "")

-- A round: its store, whether a clear could not land, its first error, and how many of the
-- controllers were pending and accepted.
pub record SyncRound : Type 0 where
  pub store : Store
  pub stuck : Option StoreError
  pub first_error : Option CloudError
  pub pending : ℕ
  pub accepted : ℕ

-- The rest of a round behind a controller that was kept, and behind one that was settled.
unfoldable pub kept_first : CloudError → SyncRound → SyncRound
kept_first e r = record r { first_error = some e; pending = suc r.pending }

unfoldable pub settled_first : SyncRound → SyncRound
settled_first r = record r { pending = suc r.pending; accepted = suc r.accepted }

abbrev pub stuck_round : Store → StoreError → SyncRound
stuck_round st e = record {
  store = st;
  stuck = some e;
  first_error = none;
  pending = 1;
  accepted = 0;
}

-- What comes of one controller.
pub data Pushed : Type 0 where
  kept_flag : Store → CloudError → Pushed
  settled_flag : Store → Pushed
  stuck_flag : Store → StoreError → Pushed

abbrev pub after_clear : Store × Option StoreError → Pushed
after_clear (st, none) = settled_flag st
after_clear (st, some e) = stuck_flag st e

unfoldable pub after_answer : Push → String → ℕ → Option CloudError → Store → Pushed
unfolding clear_pending
after_answer p guid rev none st = after_clear (update p.persists (clear_pending guid rev) st)
after_answer p guid rev (some e) st =
    if is_rejected e
    then after_clear (update p.persists (clear_pending guid rev) st)
    else kept_flag st e

unfoldable pub push_controller : Push → Controller → Store → Pushed
unfolding after_answer
push_controller p c st =
    after_answer p c.guid c.config_rev (update_result (enrolled st.doc) p.answer) (p.meanwhile st)

-- The loop over the controllers of the round's snapshot, the `i`th of which meets `world i`.
abbrev pub continue_round : (Store → SyncRound) → Pushed → SyncRound
continue_round next (kept_flag st e) = kept_first e (next st)
continue_round next (settled_flag st) = settled_first (next st)
continue_round next (stuck_flag st e) = stuck_round st e

unfoldable pub sync_round : (ℕ → Push) → ℕ → List Controller → Store → SyncRound
unfolding needs_sync push_controller
sync_round world i [] st = record {
  store = st;
  stuck = none;
  first_error = none;
  pending = 0;
  accepted = 0;
}
sync_round world i (c ∷ cs) st =
    if needs_sync c
    then continue_round (sync_round world (suc i) cs) (push_controller (world i) c st)
    else sync_round world (suc i) cs st

pub data SyncError : Type 0 where
  push_failed : CloudError → SyncError
  clear_failed : StoreError → SyncError

abbrev pub sync_error : Option CloudError → Option SyncError
sync_error none = none
sync_error (some e) = some (push_failed e)

-- What a round leads to: another, or the end of the pass.
unfoldable pub unless_stuck :
    (Store → Store × Option SyncError) → SyncRound → Option StoreError → Store × Option SyncError
unless_stuck next r (some e) = (r.store, some (clear_failed e))
unless_stuck next r none =
    if eqb r.pending 0 || eqb r.accepted 0
    then (r.store, sync_error r.first_error)
    else next r.store

unfoldable pub after_round :
    (Store → Store × Option SyncError) → SyncRound → Store × Option SyncError
unfolding unless_stuck
after_round next r = unless_stuck next r r.stuck

-- `syncPass`, by the number of rounds that are left.
unfoldable pub sync_pass : (ℕ → ℕ → Push) → ℕ → Store → Store × Option SyncError
unfolding sync_round after_round
sync_pass world zero st = (st, none)
sync_pass world (suc rounds) st =
    let next : Store → Store × Option SyncError = sync_pass world rounds in
    if tunnel_parked st.doc
    then (st, none)
    else after_round next (sync_round (world rounds) 0 st.doc.controllers st)

-- `SyncControllers`: a visit is a world for the pass.
unfoldable pub sync_controllers :
    List (Visit (ℕ → ℕ → Push)) → Bool → Store → Option (Store × Option SyncError)
unfolding sync_pass
sync_controllers visits asked st =
    single_flight (λ world. sync_pass world max_sync_rounds) visits asked st
