-- ===== src/Poller/Synced.antt =====
-- internal/agent/cloud/cloud.go: what the sync of the controllers leaves of the document.
use poolpilot_relay.Prelude.{
  Bool, Bool-cases, List, Option, String, [], eqb, false, if◌then◌else◌, inl, inr, none, refl, some,
  suc, true, zero, ℕ, ◌||◌, ◌∙◌, ◌∷◌, ◌≡◌,
}
use poolpilot_relay.Cloud.Calls.{CloudError, is_rejected, update_result}
use poolpilot_relay.Cloud.Flight.{Visit, Worlds, single_flight-keeps}
use poolpilot_relay.Cloud.Sync.{
  Push, Pushed, SyncError, SyncRound, after_answer, after_clear, after_round, clear_pending,
  continue_round, kept_first, kept_flag, max_sync_rounds, needs_sync, push_controller,
  settled_first, settled_flag, stuck_flag, sync_controllers, sync_pass, sync_round, unless_stuck,
}
use poolpilot_relay.Poller.Configured.{Keeps, SameConfig, clear_pending-config, update-SameConfig}
use poolpilot_relay.State.Document.{Controller}
use poolpilot_relay.State.Household.{enrolled, tunnel_parked}
use poolpilot_relay.Store.{Store, StoreError, update}

abbrev pub PushedKeeps : Store → Pushed → Type 0
PushedKeeps st (kept_flag st' e) = SameConfig st st'
PushedKeeps st (settled_flag st') = SameConfig st st'
PushedKeeps st (stuck_flag st' e) = SameConfig st st'

after_clear-PushedKeeps :
    (st : Store) (out : Store × Option StoreError)
    → SameConfig st out.0
    → PushedKeeps st (after_clear out)
after_clear-PushedKeeps st (st', none) h = h
after_clear-PushedKeeps st (st', some e) h = h

after_answer-PushedKeeps :
    (p : Push) (guid : String) (rev : ℕ) (e : Option CloudError) (st : Store)
    → PushedKeeps st (after_answer p guid rev e st)
unfolding after_answer
after_answer-PushedKeeps p guid rev none st =
    after_clear-PushedKeeps st (update p.persists (clear_pending guid rev) st)
      (update-SameConfig p.persists (clear_pending guid rev) st (clear_pending-config guid rev))
after_answer-PushedKeeps p guid rev (some e) st = elim (Bool-cases (is_rejected e)) [
  | inl r ↦ rw r (
      after_clear-PushedKeeps st (update p.persists (clear_pending guid rev) st)
        (update-SameConfig p.persists (clear_pending guid rev) st (clear_pending-config guid rev)))
  | inr r ↦ rw r refl
]

PushedKeeps-from :
    (st mid : Store) (o : Pushed) → SameConfig st mid → PushedKeeps mid o → PushedKeeps st o
PushedKeeps-from st mid (kept_flag st' e) h k = k ∙ h
PushedKeeps-from st mid (settled_flag st') h k = k ∙ h
PushedKeeps-from st mid (stuck_flag st' e) h k = k ∙ h

continue-SameConfig :
    (st : Store) (next : Store → SyncRound) (o : Pushed)
    → ((mid : Store) → SameConfig mid (next mid).store)
    → PushedKeeps st o
    → SameConfig st (continue_round next o).store
unfolding kept_first settled_first
continue-SameConfig st next (kept_flag st' e) go k = go st' ∙ k
continue-SameConfig st next (settled_flag st') go k = go st' ∙ k
continue-SameConfig st next (stuck_flag st' e) go k = k

sync_round-SameConfig :
    (world : ℕ → Push) (i : ℕ) (cs : List Controller) (st : Store)
    → ((j : ℕ) → Keeps (world j).meanwhile)
    → SameConfig st (sync_round world i cs st).store
unfolding sync_round push_controller
sync_round-SameConfig world i [] st k = refl
sync_round-SameConfig world i (c ∷ cs) st k = elim (Bool-cases (needs_sync c)) [
  | inl n ↦
      let w : Push = world i in
      let e : Option CloudError = update_result (enrolled st.doc) w.answer in
      rw n (
        continue-SameConfig st (sync_round world (suc i) cs)
          (after_answer w c.guid c.config_rev e (w.meanwhile st))
          (λ mid. sync_round-SameConfig world (suc i) cs mid k)
          (PushedKeeps-from st (w.meanwhile st)
            (after_answer w c.guid c.config_rev e (w.meanwhile st)) (k i st)
            (after_answer-PushedKeeps w c.guid c.config_rev e (w.meanwhile st))))
  | inr n ↦ rw n (sync_round-SameConfig world (suc i) cs st k)
]

unless_stuck-SameConfig :
    (st : Store) (next : Store → Store × Option SyncError) (r : SyncRound) (o : Option StoreError)
    → SameConfig st r.store
    → SameConfig r.store (next r.store).0
    → SameConfig st (unless_stuck next r o).0
unfolding unless_stuck
unless_stuck-SameConfig st next r (some e) h k = h
unless_stuck-SameConfig st next r none h k =
    elim (Bool-cases (eqb r.pending 0 || eqb r.accepted 0)) [
      | inl z ↦ rw z h
      | inr z ↦ rw z (k ∙ h)
    ]

sync_pass-SameConfig :
    (world : ℕ → ℕ → Push) (rounds : ℕ) (st : Store)
    → ((i j : ℕ) → Keeps (world i j).meanwhile)
    → SameConfig st (sync_pass world rounds st).0
unfolding sync_pass after_round
sync_pass-SameConfig world zero st k = refl
sync_pass-SameConfig world (suc rounds) st k = elim (Bool-cases (tunnel_parked st.doc)) [
  | inl p ↦ rw p refl
  | inr p ↦
      let r : SyncRound = sync_round (world rounds) 0 st.doc.controllers st in
      rw p (
        unless_stuck-SameConfig st (sync_pass world rounds) r r.stuck
          (sync_round-SameConfig (world rounds) 0 st.doc.controllers st (k rounds))
          (sync_pass-SameConfig world rounds r.store k))
]

pub branch-visit :
    {A : Type 0} (st : Store) (rerun : Bool) (rest here : Store × A)
    → SameConfig st rest.0
    → SameConfig st here.0
    → SameConfig st (if◌then◌else◌ {A = Store × A} rerun rest here).0
branch-visit st true rest now h k = h
branch-visit st false rest now h k = k

abbrev pub KeepsPushes : (ℕ → ℕ → Push) → Type 0
KeepsPushes world = (i j : ℕ) → Keeps (world i j).meanwhile

abbrev pub KeepsSyncs : List (Visit (ℕ → ℕ → Push)) → Type 0
KeepsSyncs visits = Worlds KeepsPushes visits

pub sync_controllers-SameConfig :
    (visits : List (Visit (ℕ → ℕ → Push))) (asked : Bool) (st st' : Store) (e : Option SyncError)
    → KeepsSyncs visits
    → sync_controllers visits asked st ≡ some (st', e)
    → SameConfig st st'
unfolding sync_controllers
sync_controllers-SameConfig visits asked st st' e k h =
    single_flight-keeps (λ world. sync_pass world max_sync_rounds) (SameConfig st) KeepsPushes
      (λ world mid good same. sync_pass-SameConfig world max_sync_rounds mid good ∙ same) visits
      asked st st' e k refl h
