-- ===== src/Cloud/Removals/Pass.antt =====
-- internal/agent/cloud/cloud.go: a pass over the queued device removals. An attempt carries what the
-- world answers to one entry: whether the context has ended, the clock before and after the
-- request, the cloud's answer, whether the write persists, and what others do to the store while
-- the request is out. `sha256_hex` is what idgen.HashToken computes.
use poolpilot_relay.Prelude.{
  Bool, List, Option, String, [], eqb, false, if◌then◌else◌, length, none, not, some, suc, true, ℕ,
  ◌&&◌, ◌*◌, ◌==◌, ◌||◌, ◌∷◌,
}
use poolpilot_relay.Cloud.Calls.{
  CloudAnswer, CloudError, err_subscription_inactive, is_rejected, revoke_push_result,
}
use poolpilot_relay.Cloud.Flight.{Visit, single_flight}
use poolpilot_relay.Cloud.Removals.{removal_backoff, removals_held, settle_removal}
use poolpilot_relay.Go.Int64.{add64}
use poolpilot_relay.Go.Time.{Duration, Time, add_time, before, nanoseconds, sub_time}
use poolpilot_relay.Prelude.Int.{ltb_ℤ, pos, pos_part, ℤ}
use poolpilot_relay.State.Document.{PendingDeviceRemoval}
use poolpilot_relay.State.Household.{enrolled}
use poolpilot_relay.State.Removals.{cloud_identity}
use poolpilot_relay.Store.{Store, StoreError}

abbrev pub removal_max_age : Duration
removal_max_age = pos (30 * 24 * 3600 * nanoseconds)

abbrev pub removal_backoff_inactive : ℕ
removal_backoff_inactive = 6 * 3600 * nanoseconds

-- The zero value of `only` is the empty text.
pub record RemovalPassOpts : Type 0 where
  pub only : String
  pub flush : Bool

pub record Attempt : Type 0 where
  pub cut_off : Bool
  pub now : Time
  pub answer : CloudAnswer {0} Unit
  pub after : Time
  pub persists : Bool
  pub meanwhile : Store → Store

pub data PassError : Type 0 where
  pass_cut_off : PassError
  report_deferred : CloudError → PassError
  not_settled : StoreError → PassError

-- The closure that puts an entry off.
unfoldable pub put_off : Time → PendingDeviceRemoval → PendingDeviceRemoval
put_off next p = record p { attempts = add64 p.attempts (pos 1); next_attempt_at = next }

-- How many attempts there were, for the backoff.
unfoldable pub retry_delay : ℤ → CloudError → ℕ
retry_delay attempts err_subscription_inactive = removal_backoff_inactive
retry_delay attempts e = removal_backoff (pos_part (add64 attempts (pos 1)))

-- What comes of one entry: it is skipped, settled with the error that the pass remembers, or the
-- pass ends there.
pub data Handled : Type 0 where
  left_alone : Handled
  settled_entry : Store → Option PassError → Handled
  ended : Store → PassError → Handled

abbrev pub after_settle : Option PassError → Store × Option StoreError → Handled
after_settle e (st, none) = settled_entry st e
after_settle e (st, some failed) = ended st (not_settled failed)

-- What the answer of `revokePush` leads to.
unfoldable pub after_report : Attempt → PendingDeviceRemoval → Option CloudError → Store → Handled
unfolding put_off retry_delay
after_report w p none st = after_settle none (settle_removal p.device_id none w.persists st)
after_report w p (some e) st =
    if is_rejected e
    then after_settle none (settle_removal p.device_id none w.persists st)
    else after_settle (some (report_deferred e)) (
        settle_removal p.device_id
          (some (put_off (add_time w.after (pos (retry_delay p.attempts e))))) w.persists st)

-- An entry that was queued under another cloud identity than the present one.
unfoldable pub is_foreign : String → PendingDeviceRemoval → Bool
is_foreign identity p = not (p.cloud_identity == "") && not (p.cloud_identity == identity)

unfoldable pub is_too_old : Time → PendingDeviceRemoval → Bool
is_too_old now p = ltb_ℤ removal_max_age (sub_time now p.created_at)

-- Whether the entry is sent: it is due, belongs to the identity, and is not too old.
unfoldable pub is_sent : RemovalPassOpts → String → Attempt → PendingDeviceRemoval → Bool
unfolding is_foreign is_too_old
is_sent opts identity w p =
    ((opts.only == "") || (p.device_id == opts.only))
    && not w.cut_off
    && not (is_foreign identity p)
    && not (is_too_old w.now p)
    && (not (before w.now p.next_attempt_at) || opts.flush)

-- The body of the loop.
unfoldable pub handle_removal :
    RemovalPassOpts → String → Attempt → PendingDeviceRemoval → Store → Handled
unfolding is_foreign is_too_old after_report
handle_removal opts identity w p st =
    if not (opts.only == "") && not (p.device_id == opts.only)
    then left_alone
    else if w.cut_off
    then ended st pass_cut_off
    else if is_foreign identity p || is_too_old w.now p
    then after_settle none (settle_removal p.device_id none w.persists st)
    else if before w.now p.next_attempt_at && not opts.flush
    then left_alone
    else after_report w p (revoke_push_result w.answer) (w.meanwhile st)

-- The pass remembers its first error.
abbrev pub first_of : Option PassError → Option PassError → Option PassError
first_of none later = later
first_of (some e) later = some e

abbrev pub next_entry :
    (Option PassError → Store → Store × Option PassError)
    → Option PassError
    → Store
    → Handled
    → Store × Option PassError
next_entry next first st left_alone = next first st
next_entry next first st (settled_entry st' e) = next (first_of first e) st'
next_entry next first st (ended st' pass_cut_off) = (st', first_of first (some pass_cut_off))
next_entry next first st (ended st' (report_deferred e)) = (st', some (report_deferred e))
next_entry next first st (ended st' (not_settled e)) = (st', some (not_settled e))

-- The loop, the `i`th entry of which meets `world i`.
unfoldable pub removal_loop :
    RemovalPassOpts
    → String
    → (ℕ → Attempt)
    → ℕ
    → List PendingDeviceRemoval
    → Option PassError
    → Store
    → Store × Option PassError
unfolding handle_removal
removal_loop opts identity world i [] first st = (st, first)
removal_loop opts identity world i (p ∷ ps) first st =
    next_entry (removal_loop opts identity world (suc i) ps) first st
      (handle_removal opts identity (world i) p st)

-- `removalPass`.
unfoldable pub removal_pass :
    (String → String) → RemovalPassOpts → (ℕ → Attempt) → Store → Store × Option PassError
unfolding removal_loop
removal_pass sha256_hex opts world st =
    if eqb (length st.doc.pending_device_removals) 0
      || not (enrolled st.doc)
      || (removals_held st.doc && not opts.flush)
    then (st, none)
    else removal_loop opts (cloud_identity sha256_hex st.doc) world 0 st.doc.pending_device_removals
        none st

abbrev pub every_due : RemovalPassOpts
every_due = record { only = ""; flush = false }

-- `ReportDeviceRemovals`: a visit is a world for the pass.
unfoldable pub report_device_removals :
    (String → String)
    → List (Visit (ℕ → Attempt))
    → Bool
    → Store
    → Option (Store × Option PassError)
unfolding removal_pass
report_device_removals sha256_hex visits asked st =
    single_flight (removal_pass sha256_hex every_due) visits asked st

-- `ReportDeviceRemoval`, by whether a pass is running.
unfoldable pub report_device_removal :
    (String → String) → String → Bool → (ℕ → Attempt) → Store → Store × Option PassError
unfolding removal_pass
report_device_removal sha256_hex id running world st =
    if running
    then (st, none)
    else removal_pass sha256_hex (record { only = id; flush = false }) world st

-- `FlushDeviceRemovals`, by whether the lock is had before the context ends.
unfoldable pub flush_device_removals :
    (String → String) → Bool → (ℕ → Attempt) → Store → Store × Option PassError
unfolding removal_pass
flush_device_removals sha256_hex locks world st =
    if locks
    then removal_pass sha256_hex (record { only = ""; flush = true }) world st
    else (st, some pass_cut_off)
