-- ===== src/Examples/Storing.antt =====
-- The store: histories of calls, bound writes, and opening.
use poolpilot_relay.Prelude.{arith, eq_iff, false, none, refl, some, true, ◌≡◌}
use poolpilot_relay.Examples.Data.{home}
use poolpilot_relay.State.Document.{State, fresh_state, lifecycle_suspended}
use poolpilot_relay.Store.{
  Store, drop_household_if, holds_token, missing, open_store, opened, update, update_if_token, wipe,
}
use poolpilot_relay.Store.Bound.{DropResult, drop_household_if_lem}
use poolpilot_relay.Store.Consistent.{
  IsConsistent, Reach-IsConsistent, dead, here, live, updates, updates_if, wipes,
}
use poolpilot_relay.Store.Wiped.{IsOpened, Reach-wiped, open_store_lem}

home_live : IsConsistent home
home_live = live refl refl

-- The same store once it was wiped.
abbrev wiped_home : Store
wiped_home = record home { wiped = true; disk = none }

wiped_dead : IsConsistent wiped_home
wiped_dead = dead refl refl

abbrev paused : State → State
paused s = record s { cloud = (record s.cloud { lifecycle = lifecycle_suspended }) }

Reach-IsConsistent_example :
    IsConsistent
      (update_if_token "t1" true paused
        (λ _. (wipe true true (update true paused home).0).0)
        (update true paused home).0).0
Reach-IsConsistent_example = Reach-IsConsistent home_live (
    updates_if "t1" true paused {s = (update true paused home).0} (updates true paused here)
      (wipes true true here))

Reach-wiped_example :
    let s = update true paused wiped_home in (s.0.wiped ≡ true) × (s.0.disk ≡ none)
Reach-wiped_example = Reach-wiped wiped_dead refl (updates true paused here)

drop_household_if_lem_example :
    let (r, applied, e) = drop_household_if (holds_token "t1") true true (λ _. home) home in
    DropResult (holds_token "t1") home home r applied e
drop_household_if_lem_example = drop_household_if_lem (holds_token "t1") true true home home

open_store_lem_example : IsOpened (opened (fresh_state "id") (some (fresh_state "id")) false)
unfolding open_store
open_store_lem_example =
    open_store_lem true true true "id" false missing
      (opened (fresh_state "id") (some (fresh_state "id")) false)
      (λ e. ground (arith, eq_iff "id" "")) refl
