-- ===== src/Cloud/Outbox.antt =====
-- internal/agent/cloud/cloud.go: the queue of alerts and its delivery. `parse_time` is time.Parse
-- for RFC 3339, `none` where it errs.
pub mod Stale
pub mod Turns
pub mod Fates
pub mod Drained
use poolpilot_relay.Prelude.{
  Bool, List, Option, String, [], any, drop, eqb, false, if◌then◌else◌, is_some, leb, none, not,
  some, true, ℕ, ◌&&◌, ◌*◌, ◌++◌, ◌==◌, ◌||◌, ◌∷◌,
}
use poolpilot_relay.Go.Time.{Duration, Time, nanoseconds, sub_time}
use poolpilot_relay.Prelude.Int.{ltb_ℤ, pos}
use poolpilot_relay.State.Document.{State}
use poolpilot_relay.State.Household.{tunnel_parked}
use poolpilot_relay.Store.{Store, StoreError, update}
use poolpilot_relay.Wire.Alerts.{AlertRequest, transition_recover}

unfoldable pub last_queued_entry_for_rule : String → List AlertRequest → Bool
last_queued_entry_for_rule rule_id rest = not (any (λ r. r.rule_id == rule_id) rest)

abbrev pub alert_staleness : Duration
alert_staleness = pos (3600 * nanoseconds)

-- What a POST comes back with: nothing, or a status.
pub data Delivery : Type 0 where
  unanswered : Delivery
  http_status : ℕ → Delivery

-- Whether `Drain` stops at it and keeps the queue.
unfoldable pub is_deferred : Delivery → Bool
is_deferred unanswered = true
is_deferred (http_status n) = leb 500 n || eqb n 401 || eqb n 403

pub data DrainError : Type 0 where
  unavailable not_persisted : DrainError

unfoldable pub pop_front : State → State
pop_front s = record s { outbox = drop 1 s.outbox }

-- `popOutboxHead`.
unfoldable pub pop_outbox_head : Bool → Store → Store × Option StoreError
unfolding pop_front
pop_outbox_head persists st = update persists pop_front st

-- One round of the loop: the clock, the answer to a POST, whether a write persists, and what others
-- do to the store between the round's look and its pop.
pub record Round : Type 0 where
  pub now : Time
  pub answer : Delivery
  pub persists : Bool
  pub meanwhile : Store → Store

pub data Turn : Type 0 where
  returns : Store → Option DrainError → Turn
  goes_on : Store → Turn

abbrev pub after_turn :
    (Store → Option (Store × Option DrainError)) → Turn → Option (Store × Option DrainError)
after_turn next (returns st e) = some (st, e)
after_turn next (goes_on st) = next st

module _ (parse_time : String → Option Time) where
  unfoldable pub stale_alert : AlertRequest → List AlertRequest → Time → Bool
  unfolding last_queued_entry_for_rule
  stale_alert head rest now =
      if (head.transition == transition_recover) && last_queued_entry_for_rule head.rule_id rest
      then false
      else if head.occurred_at == ""
      then false
      else elim (parse_time head.occurred_at) [
        | none ↦ false
        | some occurred ↦ ltb_ℤ alert_staleness (sub_time now occurred)
      ]

  -- What becomes of the head: kept for later, or popped.
  unfoldable pub keeps_head : AlertRequest → List AlertRequest → Round → Bool
  keeps_head head rest r = not (stale_alert head rest r.now) && is_deferred r.answer

  -- One round, by the queue that it sees: the loop returns, or goes on.
  unfoldable pub drain_round : Round → Store → List AlertRequest → Turn
  unfolding keeps_head
  drain_round r st [] = returns st none
  drain_round r st (head ∷ rest) =
      let (st', e) = pop_outbox_head r.persists (r.meanwhile st) in
      if tunnel_parked st.doc
      then returns st none
      else if keeps_head head rest r
      then returns (r.meanwhile st) (some unavailable)
      else if is_some e
      then returns st' (some not_persisted)
      else goes_on st'

  -- The loop of `Drain`: `none` where the rounds end before it does.
  unfoldable pub drain : List Round → Store → Option (Store × Option DrainError)
  drain [] st = none
  drain (r ∷ rounds) st = after_turn (drain rounds) (drain_round r st st.doc.outbox)

  -- `SendAlert`: queues the request, and then delivers what it can.
  unfoldable pub queue_alert : AlertRequest → State → State
  queue_alert req s = record s { outbox = s.outbox ++ (req ∷ []) }

  unfoldable pub send_alert :
      AlertRequest → Bool → List Round → Store → Option (Store × Option StoreError)
  unfolding queue_alert
  send_alert req persists rounds st =
      let (st', e) = update persists (queue_alert req) st in
      if is_some e
      then some (st', e)
      else elim (drain rounds st') [ none ↦ none | some (st'', _) ↦ some (st'', none) ]
