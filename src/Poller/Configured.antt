-- ===== src/Poller/Configured.antt =====
-- internal/agent/poller/poller.go and internal/agent/cloud/cloud.go: what a tick leaves of the
-- document.
use poolpilot_relay.Prelude.{
  All, Bool, Bool-cases, List, Map, Option, String, [], ap, arith, drop, eqb, false, if◌then◌else◌,
  inl, inr, is_some, map, none, refl, some, subst, true, ℕ, ◌∙◌, ◌∷◌, ◌≡◌,
}
use poolpilot_relay.Alert.Engine.{RuleState}
use poolpilot_relay.Cloud.Outbox.{
  DrainError, Round, Turn, after_turn, drain, drain_round, goes_on, keeps_head, pop_front,
  pop_outbox_head, returns,
}
use poolpilot_relay.Cloud.Sync.{clear_pending}
use poolpilot_relay.Go.Time.{Time, zero_time}
use poolpilot_relay.Poller.{merge_states, save_poll}
use poolpilot_relay.Prelude.Int.{pos}
use poolpilot_relay.State.Controllers.{modify_controller}
use poolpilot_relay.State.Document.{Controller, State}
use poolpilot_relay.State.Household.{tunnel_parked}
use poolpilot_relay.Store.{Store, StoreError, normalize, update}
use poolpilot_relay.Store.Cases.{update-cases}
use poolpilot_relay.Wire.Alerts.{AlertRequest}

-- A controller without what the poller and the sync write of it.
unfoldable pub configured : Controller → Controller
configured c = record c {
  cloud_sync_pending = false;
  alert_state = [];
  last_success_at = zero_time;
}

-- A document without its queues, its version, and that part of its controllers.
unfoldable pub config : State → State
unfolding configured
config s = record s {
  version = pos 0;
  controllers = map configured s.controllers;
  outbox = [];
  pending_device_removals = [];
}

abbrev pub SameConfig : Store → Store → Type 0
SameConfig st st' = config st'.doc ≡ config st.doc

-- What others do to the store keeps the configuration.
abbrev pub Keeps : (Store → Store) → Type 0
Keeps f = (st : Store) → SameConfig st (f st)

pub update-SameConfig :
    (persists : Bool) (fn : State → State) (st : Store)
    → ((s : State) → config (fn s) ≡ config s)
    → SameConfig st (update persists fn st).0
unfolding config normalize
update-SameConfig persists fn st h = elim (update-cases persists fn st) [
  | inl e ↦ rw e (h st.doc)
  | inr (_, e) ↦ rw e refl
]

modify-configured :
    (guid : String) (f : Controller → Controller) (cs : List Controller)
    → ((c : Controller) → configured (f c) ≡ configured c)
    → map configured (modify_controller guid f cs) ≡ map configured cs
unfolding modify_controller
modify-configured guid f [] h = refl
modify-configured guid f (c ∷ cs) h = ground (arith, h c, modify-configured guid f cs h)

clears_flag :
    (r : ℕ) (c : Controller)
    → configured (if eqb c.config_rev r then record c { cloud_sync_pending = false } else c)
      ≡ configured c
unfolding configured
clears_flag r c = elim (Bool-cases (eqb c.config_rev r)) [ inl e ↦ rw e refl | inr e ↦ rw e refl ]

pub clear_pending-config :
    (guid : String) (rev : ℕ) (s : State) → config (clear_pending guid rev s) ≡ config s
unfolding clear_pending config
clear_pending-config guid rev s =
    ap (λ cs. record (config s) { controllers = cs })
      (modify-configured guid
        (λ c. if eqb c.config_rev rev then record c { cloud_sync_pending = false } else c)
        s.controllers (clears_flag rev))

pub save_poll-config :
    (guid : String) (states : Map RuleState) (last : Time) (s : State)
    → config (save_poll guid states last s) ≡ config s
unfolding save_poll config configured
save_poll-config guid states last s =
    ap (λ cs. record (config s) { controllers = cs })
      (modify-configured guid
        (λ c. record c { alert_state = merge_states c.alert_rules states; last_success_at = last })
        s.controllers (λ c. refl))

-- The drain of the outbox.
branch-turn :
    (r : Round) (st popped : Store) (parked keeps : Bool) (e : Option StoreError)
    (x y : Option DrainError) (P : Turn → Type 0)
    → P (returns st none)
    → P (returns (r.meanwhile st) x)
    → P (returns popped y)
    → P (goes_on popped)
    → P (
        if parked
        then returns st none
        else if keeps
        then returns (r.meanwhile st) x
        else if is_some e
        then returns popped y
        else goes_on popped)
branch-turn r st popped true keeps e x y P a b c d = a
branch-turn r st popped false true e x y P a b c d = b
branch-turn r st popped false false (some _) x y P a b c d = c
branch-turn r st popped false false none x y P a b c d = d

abbrev pub TurnKeeps : Store → Turn → Type 0
TurnKeeps st (returns st' e) = SameConfig st st'
TurnKeeps st (goes_on st') = SameConfig st st'

pop-SameConfig : (persists : Bool) (st : Store) → SameConfig st (pop_outbox_head persists st).0
unfolding pop_outbox_head pop_front config
pop-SameConfig persists st =
    update-SameConfig persists (λ s. record s { outbox = drop 1 s.outbox }) st (λ s. refl)

after-SameConfig :
    (parse_time : String → Option Time) (rounds : List Round) (st st' : Store)
    (e : Option DrainError) (o : Turn)
    → ((mid : Store) → drain parse_time rounds mid ≡ some (st', e) → SameConfig mid st')
    → TurnKeeps st o
    → after_turn (drain parse_time rounds) o ≡ some (st', e)
    → SameConfig st st'
after-SameConfig parse_time rounds st st' e (returns u x) go k h =
    let same : (u ≡ st') = ground (arith, h) in subst (SameConfig st) same k
after-SameConfig parse_time rounds st st' e (goes_on mid) go k h = go mid h ∙ k

module _ (parse_time : String → Option Time) where
  round-TurnKeeps :
      (r : Round) (st : Store) (q : List AlertRequest)
      → Keeps r.meanwhile
      → TurnKeeps st (drain_round parse_time r st q)
  unfolding drain_round
  round-TurnKeeps r st [] k = refl
  round-TurnKeeps r st (head ∷ rest) k =
      let popped = pop_outbox_head r.persists (r.meanwhile st) in
      let pops : SameConfig st popped.0 = pop-SameConfig r.persists (r.meanwhile st) ∙ k st in
      branch-turn r st popped.0 (tunnel_parked st.doc) (keeps_head parse_time head rest r) popped.1
        _ _ (TurnKeeps st) refl (k st) pops pops

  pub drain-SameConfig :
      (rounds : List Round) (st st' : Store) (e : Option DrainError)
      → All (λ r. Keeps r.meanwhile) rounds
      → drain parse_time rounds st ≡ some (st', e)
      → SameConfig st st'
  unfolding drain
  drain-SameConfig [] st st' e k h = absurd (ground (arith, h))
  drain-SameConfig (r ∷ rounds) st st' e k h =
      after-SameConfig parse_time rounds st st' e (drain_round parse_time r st st.doc.outbox)
        (λ mid m. drain-SameConfig rounds mid st' e k.1 m) (round-TurnKeeps r st st.doc.outbox k.0)
        h
