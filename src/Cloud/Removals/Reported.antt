-- ===== src/Cloud/Removals/Reported.antt =====
-- internal/agent/cloud/cloud.go: what a pass over the device removals leaves in the queue, and which
-- entries it sends.
use poolpilot_relay.Prelude.{
  ==_cases, Bool, Bool-cases, List, Option, String, [], arith, eqb, false, if◌then◌else◌, inl, inr,
  length, none, not, refl, suc, true, ℕ, ◌&&◌, ◌==◌, ◌||◌, ◌∷◌, ◌≡◌, ◌≢◌, ◌⊎◌,
}
use poolpilot_relay.Cloud.Calls.{CloudAnswer, revoke_push_result}
use poolpilot_relay.Cloud.Removals.{removals_held, settle_removal}
use poolpilot_relay.Cloud.Removals.Owed.{
  Done, HandledOwes, Owes, done_here, done_later, handle_removal-Owes, is_done,
}
use poolpilot_relay.Cloud.Removals.Pass.{
  Attempt, Handled, PassError, RemovalPassOpts, after_report, after_settle, ended, first_of,
  handle_removal, is_foreign, is_sent, is_too_old, left_alone, next_entry, not_settled,
  pass_cut_off, removal_loop, removal_pass, report_deferred, settled_entry,
}
use poolpilot_relay.Go.Time.{Time, before}
use poolpilot_relay.State.Document.{PendingDeviceRemoval}
use poolpilot_relay.State.Household.{enrolled}
use poolpilot_relay.State.Removals.{cloud_identity}
use poolpilot_relay.Store.{Store}

next_entry-Owes :
    {D : Type 0} (id : String) (next : Option PassError → Store → Store × Option PassError)
    (first : Option PassError) (st : Store) (h : Handled)
    → ((e : Option PassError) (u : Store) → Owes id u → Owes id (next e u).0 ⊎ D)
    → Owes id st
    → HandledOwes id h
    → Owes id (next_entry next first st h).0 ⊎ D
next_entry-Owes id next first st left_alone k o u = k first st o
next_entry-Owes id next first st (settled_entry st' e) k o u = k (first_of first e) st' u
next_entry-Owes id next first st (ended st' pass_cut_off) k o u = inl u
next_entry-Owes id next first st (ended st' (report_deferred e)) k o u = inl u
next_entry-Owes id next first st (ended st' (not_settled e)) k o u = inl u

-- While a request is out, nobody takes the device's entry from the queue.
abbrev pub Undisturbed : String → (ℕ → Attempt) → Type 0
Undisturbed id world = (i : ℕ) (st : Store) → Owes id st → Owes id ((world i).meanwhile st)

loop-Owes :
    (opts : RemovalPassOpts) (identity : String) (world : ℕ → Attempt) (id : String) (i : ℕ)
    (ps : List PendingDeviceRemoval) (first : Option PassError) (st : Store)
    → Undisturbed id world
    → Owes id st
    → Owes id (removal_loop opts identity world i ps first st).0 ⊎ Done opts identity world id i ps
unfolding removal_loop
loop-Owes opts identity world id i [] first st quiet o = inl o
loop-Owes opts identity world id i (p ∷ ps) first st quiet o =
    elim (Bool-cases ((p.device_id == id) && is_done opts identity (world i) p)) [
      | inl d ↦ inr (done_here (ground (arith, d)) (ground (arith, d)))
      | inr n ↦
          next_entry-Owes id (removal_loop opts identity world (suc i) ps) first st
            (handle_removal opts identity (world i) p st)
            (λ e u ou. elim (loop-Owes opts identity world id (suc i) ps e u quiet ou) [
              | inl kept ↦ inl kept
              | inr d ↦ inr (done_later d)
            ])
            o (handle_removal-Owes opts identity (world i) p id st n o (quiet i st o))
    ]

-- A pass never loses a device removal: an entry that was queued is still there afterwards, unless
-- the pass has done with an entry of that device: it was queued under another cloud identity, is
-- older than thirty days, or was sent and confirmed or refused for good. The queue is within its
-- cap, and nobody else takes the entry while a request is out.
pub removal_pass-Owes :
    (sha256_hex : String → String) (opts : RemovalPassOpts) (world : ℕ → Attempt) (id : String)
    (st : Store)
    → Undisturbed id world
    → Owes id st
    → Owes id (removal_pass sha256_hex opts world st).0
      ⊎ Done opts (cloud_identity sha256_hex st.doc) world id 0 st.doc.pending_device_removals
unfolding removal_pass
removal_pass-Owes sha256_hex opts world id st quiet o =
    let identity : String = cloud_identity sha256_hex st.doc in
    let q : List PendingDeviceRemoval = st.doc.pending_device_removals in
    elim (Bool-cases
      (eqb (length q) 0 || not (enrolled st.doc) || (removals_held st.doc && not opts.flush))) [
        | inl e ↦ rw e (inl o)
        | inr e ↦ rw e (loop-Owes opts identity world id 0 q none st quiet o)
      ]

branch-unsent :
    (skipped cut gone early : Bool) (st : Store) (dropped report other : Handled)
    → not skipped && not cut && not gone && not early ≡ false
    → (if skipped
        then left_alone
        else if cut
        then ended st pass_cut_off
        else if gone
        then dropped
        else if early
        then left_alone
        else report)
      ≡ (if skipped
          then left_alone
          else if cut
          then ended st pass_cut_off
          else if gone
          then dropped
          else if early
          then left_alone
          else other)
branch-unsent true cut gone early st dropped report other h = refl
branch-unsent false true gone early st dropped report other h = refl
branch-unsent false false true early st dropped report other h = refl
branch-unsent false false false true st dropped report other h = refl
branch-unsent false false false false st dropped report other h = absurd (ground (arith, h))

-- An entry that is not due to be sent is not sent: what the cloud would answer, and what would
-- happen meanwhile, makes no difference.
unsent_unasked :
    (opts : RemovalPassOpts) (identity : String) (w : Attempt) (p : PendingDeviceRemoval)
    (st : Store) (reply : CloudAnswer {0} Unit) (later : Time) (others : Store → Store)
    → is_sent opts identity w p ≡ false
    → handle_removal opts identity w p st
      ≡ handle_removal opts identity
          (record w { answer = reply; after = later; meanwhile = others })
          p
          st
unfolding handle_removal is_sent
unsent_unasked opts identity w p st reply later others h =
    branch-unsent (not (opts.only == "") && not (p.device_id == opts.only)) w.cut_off
      (is_foreign identity p || is_too_old w.now p)
      (before w.now p.next_attempt_at && not opts.flush) st
      (after_settle none (settle_removal p.device_id none w.persists st))
      (after_report w p (revoke_push_result w.answer) (w.meanwhile st))
      (after_report (record w { answer = reply; after = later; meanwhile = others }) p
        (revoke_push_result reply) (others st))
      (ground (arith, h))

-- An entry that was queued under another cloud identity is never sent under the present one,
-- whatever the pass covers: what the cloud would answer makes no difference.
pub foreign_unsent :
    (opts : RemovalPassOpts) (identity : String) (w : Attempt) (p : PendingDeviceRemoval)
    (st : Store) (reply : CloudAnswer {0} Unit) (later : Time) (others : Store → Store)
    → p.cloud_identity ≢ ""
    → p.cloud_identity ≢ identity
    → handle_removal opts identity w p st
      ≡ handle_removal opts identity
          (record w { answer = reply; after = later; meanwhile = others })
          p
          st
unfolding is_sent is_foreign
foreign_unsent opts identity w p st reply later others full other =
    unsent_unasked opts identity w p st reply later others (elim (==_cases p.cloud_identity "") [
      | inl (_, e) ↦ absurd (full e)
      | inr (n, _) ↦ elim (==_cases p.cloud_identity identity) [
        | inl (_, e) ↦ absurd (other e)
        | inr (m, _) ↦ ground (arith, n, m)
      ]
    ])
