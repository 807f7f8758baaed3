-- ===== src/Poller/Tick.antt =====
-- internal/agent/poller/poller.go: a whole tick, with the calls at its end.
use poolpilot_relay.Prelude.{
  Bool, Bool-cases, List, Option, String, [], eqb, false, if◌then◌else◌, inl, inr, length, none,
  not, refl, some, suc, true, ℕ, ◌&&◌, ◌==◌, ◌||◌, ◌∙◌, ◌∷◌, ◌≡◌,
}
use poolpilot_relay.Cloud.Calls.{CloudError, is_rejected, revoke_push_result}
use poolpilot_relay.Cloud.Flight.{Visit, Worlds, single_flight-keeps}
use poolpilot_relay.Cloud.Removals.{removals_held, settle_first, settle_removal}
use poolpilot_relay.Cloud.Removals.Pass.{
  Attempt, Handled, PassError, RemovalPassOpts, after_report, after_settle, ended, every_due,
  first_of, handle_removal, is_foreign, is_too_old, left_alone, next_entry, not_settled,
  pass_cut_off, put_off, removal_loop, removal_pass, report_deferred, report_device_removals,
  retry_delay, settled_entry,
}
use poolpilot_relay.Go.Time.{add_time, before}
use poolpilot_relay.Poller.Configured.{Keeps, SameConfig, config, update-SameConfig}
use poolpilot_relay.Poller.Synced.{branch-visit}
use poolpilot_relay.Prelude.Int.{pos}
use poolpilot_relay.State.Document.{PendingDeviceRemoval}
use poolpilot_relay.State.Household.{enrolled}
use poolpilot_relay.State.Removals.{cloud_identity}
use poolpilot_relay.Store.{Store, StoreError}

-- The report of the device removals.
abbrev pub HandledKeeps : Store → Handled → Type 0
HandledKeeps st left_alone = Unit
HandledKeeps st (settled_entry st' e) = SameConfig st st'
HandledKeeps st (ended st' e) = SameConfig st st'

after_settle-HandledKeeps :
    (st : Store) (e : Option PassError) (out : Store × Option StoreError)
    → SameConfig st out.0
    → HandledKeeps st (after_settle e out)
after_settle-HandledKeeps st e (st', none) h = h
after_settle-HandledKeeps st e (st', some failed) h = h

settle_removal-SameConfig :
    (id : String) (retry : Option (PendingDeviceRemoval → PendingDeviceRemoval)) (persists : Bool)
    (st : Store)
    → SameConfig st (settle_removal id retry persists st).0
unfolding settle_removal config
settle_removal-SameConfig id retry persists st =
    update-SameConfig persists
      (λ s. record s { pending_device_removals = settle_first id retry s.pending_device_removals })
      st (λ s. refl)

after_report-HandledKeeps :
    (w : Attempt) (p : PendingDeviceRemoval) (e : Option CloudError) (st : Store)
    → HandledKeeps st (after_report w p e st)
unfolding after_report
after_report-HandledKeeps w p none st =
    after_settle-HandledKeeps st none (settle_removal p.device_id none w.persists st)
      (settle_removal-SameConfig p.device_id none w.persists st)
after_report-HandledKeeps w p (some e) st = elim (Bool-cases (is_rejected e)) [
  | inl r ↦ rw r (
      after_settle-HandledKeeps st none (settle_removal p.device_id none w.persists st)
        (settle_removal-SameConfig p.device_id none w.persists st))
  | inr r ↦
      let later : PendingDeviceRemoval → PendingDeviceRemoval =
        put_off (add_time w.after (pos (retry_delay p.attempts e))) in
      rw r (
        after_settle-HandledKeeps st (some (report_deferred e))
          (settle_removal p.device_id (some later) w.persists st)
          (settle_removal-SameConfig p.device_id (some later) w.persists st))
]

HandledKeeps-from :
    (st mid : Store) (h : Handled) → SameConfig st mid → HandledKeeps mid h → HandledKeeps st h
HandledKeeps-from st mid left_alone e k = tt
HandledKeeps-from st mid (settled_entry st' x) e k = k ∙ e
HandledKeeps-from st mid (ended st' x) e k = k ∙ e

branch-HandledKeeps :
    (skipped cut gone early : Bool) (st : Store) (dropped report : Handled)
    → HandledKeeps st dropped
    → HandledKeeps st report
    → HandledKeeps st (
        if skipped
        then left_alone
        else if cut
        then ended st pass_cut_off
        else if gone
        then dropped
        else if early
        then left_alone
        else report)
branch-HandledKeeps true cut gone early st dropped report d r = tt
branch-HandledKeeps false true gone early st dropped report d r = refl
branch-HandledKeeps false false true early st dropped report d r = d
branch-HandledKeeps false false false true st dropped report d r = tt
branch-HandledKeeps false false false false st dropped report d r = r

handle_removal-HandledKeeps :
    (opts : RemovalPassOpts) (identity : String) (w : Attempt) (p : PendingDeviceRemoval)
    (st : Store)
    → Keeps w.meanwhile
    → HandledKeeps st (handle_removal opts identity w p st)
unfolding handle_removal
handle_removal-HandledKeeps opts identity w p st k =
    branch-HandledKeeps (not (opts.only == "") && not (p.device_id == opts.only)) w.cut_off
      (is_foreign identity p || is_too_old w.now p)
      (before w.now p.next_attempt_at && not opts.flush) st
      (after_settle none (settle_removal p.device_id none w.persists st))
      (after_report w p (revoke_push_result w.answer) (w.meanwhile st))
      (after_settle-HandledKeeps st none (settle_removal p.device_id none w.persists st)
        (settle_removal-SameConfig p.device_id none w.persists st))
      (HandledKeeps-from st (w.meanwhile st)
        (after_report w p (revoke_push_result w.answer) (w.meanwhile st)) (k st)
        (after_report-HandledKeeps w p (revoke_push_result w.answer) (w.meanwhile st)))

next_entry-SameConfig :
    (next : Option PassError → Store → Store × Option PassError) (first : Option PassError)
    (st : Store) (h : Handled)
    → ((e : Option PassError) (mid : Store) → SameConfig mid (next e mid).0)
    → HandledKeeps st h
    → SameConfig st (next_entry next first st h).0
next_entry-SameConfig next first st left_alone go k = go first st
next_entry-SameConfig next first st (settled_entry st' e) go k = go (first_of first e) st' ∙ k
next_entry-SameConfig next first st (ended st' pass_cut_off) go k = k
next_entry-SameConfig next first st (ended st' (report_deferred e)) go k = k
next_entry-SameConfig next first st (ended st' (not_settled e)) go k = k

loop-SameConfig :
    (opts : RemovalPassOpts) (identity : String) (world : ℕ → Attempt) (i : ℕ)
    (ps : List PendingDeviceRemoval) (first : Option PassError) (st : Store)
    → ((j : ℕ) → Keeps (world j).meanwhile)
    → SameConfig st (removal_loop opts identity world i ps first st).0
unfolding removal_loop
loop-SameConfig opts identity world i [] first st k = refl
loop-SameConfig opts identity world i (p ∷ ps) first st k =
    next_entry-SameConfig (removal_loop opts identity world (suc i) ps) first st
      (handle_removal opts identity (world i) p st)
      (λ e mid. loop-SameConfig opts identity world (suc i) ps e mid k)
      (handle_removal-HandledKeeps opts identity (world i) p st (k i))

removal_pass-SameConfig :
    (sha256_hex : String → String) (opts : RemovalPassOpts) (world : ℕ → Attempt) (st : Store)
    → ((j : ℕ) → Keeps (world j).meanwhile)
    → SameConfig st (removal_pass sha256_hex opts world st).0
unfolding removal_pass
removal_pass-SameConfig sha256_hex opts world st k =
    branch-visit st
      (eqb (length st.doc.pending_device_removals) 0
        || not (enrolled st.doc)
        || (removals_held st.doc && not opts.flush))
      (st, none)
      (removal_loop opts (cloud_identity sha256_hex st.doc) world 0 st.doc.pending_device_removals
        none st)
      refl
      (loop-SameConfig opts (cloud_identity sha256_hex st.doc) world 0
        st.doc.pending_device_removals none st k)

abbrev pub KeepsAttempts : (ℕ → Attempt) → Type 0
KeepsAttempts world = (j : ℕ) → Keeps (world j).meanwhile

abbrev pub KeepsRemovals : List (Visit (ℕ → Attempt)) → Type 0
KeepsRemovals visits = Worlds KeepsAttempts visits

pub report-SameConfig :
    (sha256_hex : String → String) (visits : List (Visit (ℕ → Attempt))) (asked : Bool)
    (st st' : Store) (e : Option PassError)
    → KeepsRemovals visits
    → report_device_removals sha256_hex visits asked st ≡ some (st', e)
    → SameConfig st st'
unfolding report_device_removals
report-SameConfig sha256_hex visits asked st st' e k h =
    single_flight-keeps (removal_pass sha256_hex every_due) (SameConfig st) KeepsAttempts
      (λ world mid good same. removal_pass-SameConfig sha256_hex every_due world mid good ∙ same)
      visits asked st st' e k refl h
