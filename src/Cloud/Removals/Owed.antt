-- ===== src/Cloud/Removals/Owed.antt =====
-- internal/agent/cloud/cloud.go: which device removals the agent still owes the cloud.
use poolpilot_relay.Prelude.{
  ==_cases, Bool, Bool-cases, List, Option, String, [], any, arith, false, if◌then◌else◌, inl, inr,
  length, none, not, refl, some, subst, suc, sym, true, ℕ, ◌&&◌, ◌==◌, ◌||◌, ◌∙◌, ◌∷◌, ◌≡◌, ◌≤◌,
}
use poolpilot_relay.Cloud.Calls.{CloudError, is_rejected, revoke_push_result}
use poolpilot_relay.Cloud.Removals.{settle_first, settle_removal}
use poolpilot_relay.Cloud.Removals.Pass.{
  Attempt, Handled, PassError, RemovalPassOpts, after_report, after_settle, ended, handle_removal,
  is_foreign, is_sent, is_too_old, left_alone, pass_cut_off, put_off, report_deferred, retry_delay,
  settled_entry,
}
use poolpilot_relay.Go.Time.{Time, add_time, before}
use poolpilot_relay.Prelude.Int.{pos}
use poolpilot_relay.State.Document.{PendingDeviceRemoval, State, pending_removal_limit}
use poolpilot_relay.State.Removals.{cap_pending_removals, cap_queue}
use poolpilot_relay.Store.{Store, StoreError, normalize}
use poolpilot_relay.Store.Cases.{update-cases}

-- The queue has an entry of the device.
abbrev pub has_entry : String → List PendingDeviceRemoval → Bool
has_entry id ps = any (λ p. p.device_id == id) ps

-- The store's queue has an entry of the device, and is within its cap.
abbrev pub Owes : String → Store → Type 0
Owes id st =
    (has_entry id st.doc.pending_device_removals ≡ true)
    × (length st.doc.pending_device_removals ≤ pending_removal_limit)

settle_first-length :
    (own : String) (retry : Option (PendingDeviceRemoval → PendingDeviceRemoval))
    (ps : List PendingDeviceRemoval)
    → length (settle_first own retry ps) ≤ length ps
unfolding settle_first
settle_first-length own retry [] = ground arith
settle_first-length own none (p ∷ ps) = ground (arith, settle_first-length own none ps)
settle_first-length own (some f) (p ∷ ps) = ground (arith, settle_first-length own (some f) ps)

-- An entry that is put off stays, and so does any entry of another device.
settle_first-put_off :
    (own id : String) (next : Time) (ps : List PendingDeviceRemoval)
    → has_entry id (settle_first own (some (put_off next)) ps) ≡ has_entry id ps
unfolding settle_first put_off
settle_first-put_off own id next [] = refl
settle_first-put_off own id next (p ∷ ps) = ground (arith, settle_first-put_off own id next ps)

settle_first-other :
    (own id : String) (ps : List PendingDeviceRemoval)
    → (own == id) ≡ false
    → has_entry id (settle_first own none ps) ≡ has_entry id ps
unfolding settle_first
settle_first-other own id [] h = refl
settle_first-other own id (p ∷ ps) h = elim (==_cases p.device_id own) [
  | inl (e, s) ↦
      let off : (p.device_id == id) ≡ false = subst (λ o. (o == id) ≡ false) (sym s) h in
      ground (arith, e, off)
  | inr (e, _) ↦ ground (arith, e, settle_first-other own id ps h)
]

capped :
    (ps : List PendingDeviceRemoval)
    → length ps ≤ pending_removal_limit
    → cap_pending_removals ps ≡ ps
unfolding cap_pending_removals cap_queue
capped ps h = ground (arith, h)

-- Settling an entry keeps what the store owes, where the closure keeps it.
settle_removal-Owes :
    (own id : String) (retry : Option (PendingDeviceRemoval → PendingDeviceRemoval))
    (persists : Bool) (st : Store)
    → has_entry id (settle_first own retry st.doc.pending_device_removals)
      ≡ has_entry id st.doc.pending_device_removals
    → Owes id st
    → Owes id (settle_removal own retry persists st).0
unfolding settle_removal normalize
settle_removal-Owes own id retry persists st k (has, short) =
    let q : List PendingDeviceRemoval = settle_first own retry st.doc.pending_device_removals in
    let fits : (length q ≤ pending_removal_limit) =
      ground (arith, settle_first-length own retry st.doc.pending_device_removals, short) in
    let fn : State → State = λ s. record s {
      pending_device_removals = settle_first own retry s.pending_device_removals;
    } in
    elim (update-cases persists fn st) [
      | inl e ↦
          subst (λ u. Owes id u.0) (sym e)
            (subst (λ r. (has_entry id r ≡ true) × (length r ≤ pending_removal_limit))
              (sym (capped q fits)) (k ∙ has, fits))
      | inr (_, e) ↦ subst (λ u. Owes id u.0) (sym e) (has, short)
    ]

-- Whether the pass has done with an entry: it was queued under another identity, is too old, or was
-- sent and confirmed, or refused for good.
unfoldable pub is_final : Option CloudError → Bool
is_final none = true
is_final (some e) = is_rejected e

unfoldable pub is_done : RemovalPassOpts → String → Attempt → PendingDeviceRemoval → Bool
unfolding is_final
is_done opts identity w p =
    is_foreign identity p
    || is_too_old w.now p
    || (is_sent opts identity w p && is_final (revoke_push_result w.answer))

-- What is left to owe behind an entry.
abbrev pub HandledOwes : String → Handled → Type 0
HandledOwes id left_alone = Unit
HandledOwes id (settled_entry st e) = Owes id st
HandledOwes id (ended st e) = Owes id st

after_settle-Owes :
    (id : String) (e : Option PassError) (out : Store × Option StoreError)
    → Owes id out.0
    → HandledOwes id (after_settle e out)
after_settle-Owes id e (st, none) h = h
after_settle-Owes id e (st, some failed) h = h

-- A report keeps the entries of other devices, and its own where the answer is not final.
after_report-Owes :
    (w : Attempt) (p : PendingDeviceRemoval) (id : String) (result : Option CloudError) (st : Store)
    → (p.device_id == id) && is_final result ≡ false
    → Owes id st
    → HandledOwes id (after_report w p result st)
unfolding after_report is_final
after_report-Owes w p id none st h o =
    after_settle-Owes id none (settle_removal p.device_id none w.persists st) (
      settle_removal-Owes p.device_id id none w.persists st
        (settle_first-other p.device_id id st.doc.pending_device_removals (ground (arith, h))) o)
after_report-Owes w p id (some e) st h o = elim (Bool-cases (is_rejected e)) [
  | inl r ↦ rw r (
      after_settle-Owes id none (settle_removal p.device_id none w.persists st) (
        settle_removal-Owes p.device_id id none w.persists st
          (settle_first-other p.device_id id st.doc.pending_device_removals (ground (arith, h, r)))
          o))
  | inr r ↦
      let next : Time = add_time w.after (pos (retry_delay p.attempts e)) in
      rw r (
        after_settle-Owes id (some (report_deferred e))
          (settle_removal p.device_id (some (put_off next)) w.persists st)
          (settle_removal-Owes p.device_id id (some (put_off next)) w.persists st
            (settle_first-put_off p.device_id id next st.doc.pending_device_removals) o))
]

branch-Owes :
    (id : String) (skipped cut gone early : Bool) (st : Store) (dropped report : Handled)
    → Owes id st
    → (gone ≡ true → HandledOwes id dropped)
    → (not skipped && not cut && not gone && not early ≡ true → HandledOwes id report)
    → HandledOwes id (
        if skipped
        then left_alone
        else if cut
        then ended st pass_cut_off
        else if gone
        then dropped
        else if early
        then left_alone
        else report)
branch-Owes id true cut gone early st dropped report o d r = tt
branch-Owes id false true gone early st dropped report o d r = o
branch-Owes id false false true early st dropped report o d r = d refl
branch-Owes id false false false true st dropped report o d r = tt
branch-Owes id false false false false st dropped report o d r = r refl

pub handle_removal-Owes :
    (opts : RemovalPassOpts) (identity : String) (w : Attempt) (p : PendingDeviceRemoval)
    (id : String) (st : Store)
    → (p.device_id == id) && is_done opts identity w p ≡ false
    → Owes id st
    → Owes id (w.meanwhile st)
    → HandledOwes id (handle_removal opts identity w p st)
unfolding handle_removal is_done is_sent
handle_removal-Owes opts identity w p id st h o o' =
    branch-Owes id (not (opts.only == "") && not (p.device_id == opts.only)) w.cut_off
      (is_foreign identity p || is_too_old w.now p)
      (before w.now p.next_attempt_at && not opts.flush) st
      (after_settle none (settle_removal p.device_id none w.persists st))
      (after_report w p (revoke_push_result w.answer) (w.meanwhile st)) o
      (λ gone. after_settle-Owes id none (settle_removal p.device_id none w.persists st) (
        settle_removal-Owes p.device_id id none w.persists st
          (settle_first-other p.device_id id st.doc.pending_device_removals
            (ground (arith, h, gone)))
          o))
      (λ due.
        after_report-Owes w p id (revoke_push_result w.answer) (w.meanwhile st)
          (ground (arith, h, due)) o')

-- An entry of the device that the pass has done with, and where it stands in the queue.
pub data Done (opts : RemovalPassOpts) (identity : String) (world : ℕ → Attempt) (id : String)
    : ℕ → List PendingDeviceRemoval → Type 0 where
  done_here :
      {i : ℕ} {p : PendingDeviceRemoval} {ps : List PendingDeviceRemoval}
      → (p.device_id == id) ≡ true
      → is_done opts identity (world i) p ≡ true
      → Done opts identity world id i (p ∷ ps)
  done_later :
      {i : ℕ} {p : PendingDeviceRemoval} {ps : List PendingDeviceRemoval}
      → Done opts identity world id (suc i) ps
      → Done opts identity world id i (p ∷ ps)
