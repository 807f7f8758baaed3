-- ===== src/Poller/Ends.antt =====
-- internal/agent/poller/poller.go: a tick comes to its end.
use poolpilot_relay.Prelude.{
  All, Bool, Bool-cases, List, Map, Option, String, [], ap, arith, eqb, inl, inr, insert, length,
  length-append, length-drop, none, refl, some, subst, suc, sym, ℕ, ◌++◌, ◌+◌, ◌-◌, ◌<◌, ◌==◌, ◌∙◌,
  ◌∷◌, ◌≡◌, ◌≤◌,
}
use poolpilot_relay.Cloud.Flight.{ComesToRest, Visit, single_flight_ends}
use poolpilot_relay.Cloud.Outbox.{DrainError, Round, drain, queue_alert, send_alert}
use poolpilot_relay.Cloud.Outbox.Drained.{drain-Delivered, drain_ends}
use poolpilot_relay.Cloud.Outbox.Turns.{IsQuiet}
use poolpilot_relay.Cloud.Removals.Pass.{
  Attempt, PassError, every_due, removal_pass, report_device_removals,
}
use poolpilot_relay.Cloud.Sync.{Push, SyncError, max_sync_rounds, sync_controllers, sync_pass}
use poolpilot_relay.Go.Float64.{Float64}
use poolpilot_relay.Go.Time.{Time}
use poolpilot_relay.Poller.{
  Ending, Poll, Polling, Sending, Snapshot, after_save, deliver, drain_idle, evaluate_poll,
  poll_all, poll_controller, prune_snapshots, push_pending, save_poll, snapshot_of, take_snapshot,
  tick,
}
use poolpilot_relay.Poller.Frame.{send_result}
use poolpilot_relay.State.Document.{Controller, State, outbox_limit}
use poolpilot_relay.State.Removals.{cap_outbox, cap_queue}
use poolpilot_relay.Store.{Store, StoreError, normalize, update}
use poolpilot_relay.Store.Cases.{update-cases}
use poolpilot_relay.Wire.Alerts.{AlertRequest}

-- The outbox is within its limit.
abbrev pub Fits : Store → Type 0
Fits st = length st.doc.outbox ≤ outbox_limit

-- Rounds in which nobody else writes to the store, more than the outbox can hold.
abbrev pub Enough : List Round → Type 0
Enough rounds = All IsQuiet rounds × (outbox_limit < length rounds)

cap_outbox-le : (q : List AlertRequest) → length (cap_outbox q) ≤ outbox_limit
unfolding cap_outbox cap_queue
cap_outbox-le q = ground (arith, length-drop (length q - outbox_limit) q)

update-Fits :
    (persists : Bool) (fn : State → State) (st : Store) → Fits st → Fits (update persists fn st).0
unfolding normalize
update-Fits persists fn st h = elim (update-cases persists fn st) [
  | inl e ↦ subst (λ u. Fits u.0) (sym e) (cap_outbox-le (fn st.doc).outbox)
  | inr (_, e) ↦ subst (λ u. Fits u.0) (sym e) h
]

module _ (parse_time : String → Option Time) where
  drain-Fits :
      (rounds : List Round) (st : Store)
      → Enough rounds
      → Fits st
      → (st' : Store) × (e : Option DrainError) × (drain parse_time rounds st ≡ some (st', e))
        × Fits st'
  drain-Fits rounds st (quiet, more) h =
      let (st', e, d) = drain_ends parse_time rounds st quiet h (ground (arith, h, more)) in
      let (gone, split, _, _, _) = drain-Delivered parse_time rounds st st' e quiet h d in
      let size : (length st.doc.outbox ≡ length gone + length st'.doc.outbox) =
        ap length split ∙ length-append gone st'.doc.outbox in
      (st', e, d, ground (arith, h, size))

  branch-sent :
      (st1 st' : Store) (e1 : Option StoreError) (e : Option DrainError)
      (d : Option (Store × Option DrainError))
      → Fits st1
      → d ≡ some (st', e)
      → Fits st'
      → (out : Store) × (x : Option StoreError) × (send_result st1 e1 d ≡ some (out, x)) × Fits out
  branch-sent st1 st' (some x) e d h k f = (st1, some x, refl, h)
  branch-sent st1 st' none e d h k f = (st', none, rw k refl, f)

  send_alert-Fits :
      (req : AlertRequest) (persists : Bool) (rounds : List Round) (st : Store)
      → Enough rounds
      → Fits st
      → (st' : Store) × (e : Option StoreError) × (send_alert parse_time req persists rounds st
          ≡ some (st', e))
        × Fits st'
  unfolding send_alert queue_alert
  send_alert-Fits req persists rounds st enough h =
      let fn : State → State = λ s. record s { outbox = s.outbox ++ (req ∷ []) } in
      let queued = update persists fn st in
      let fits : Fits queued.0 = update-Fits persists fn st h in
      let (st', e, d, f) = drain-Fits rounds queued.0 enough fits in
      branch-sent queued.0 st' queued.1 e (drain parse_time rounds queued.0) fits d f

  deliver-Fits :
      (label : String) (sending : ℕ → Sending) (i : ℕ) (reqs : List AlertRequest) (st : Store)
      → ((j : ℕ) → Enough (sending j).rounds)
      → Fits st
      → (st' : Store) × (deliver parse_time label sending i reqs st ≡ some st') × Fits st'
  unfolding deliver
  deliver-Fits label sending i [] st enough h = (st, refl, h)
  deliver-Fits label sending i (req ∷ reqs) st enough h =
      let (mid, e, s, f) =
        send_alert-Fits (record req { pool_label = label }) (sending i).queues (sending i).rounds st
          (enough i) h in
      let (st', d, f') = deliver-Fits label sending (suc i) reqs mid enough f in
      (st', rw (s, deliver) d, f')

  drain_idle-Fits :
      (rounds : List Round) (sent : ℕ) (st : Store)
      → Enough rounds
      → Fits st
      → (st' : Store) × (drain_idle parse_time rounds sent st ≡ some st')
  unfolding drain_idle
  drain_idle-Fits rounds sent st enough h = elim (Bool-cases (eqb sent 0)) [
    | inl z ↦ let (st', e, d, f) = drain-Fits rounds st enough h in (st', rw (z, d) refl)
    | inr z ↦ (st, rw z refl)
  ]

  after_save-Fits :
      (c : Controller) (w : Polling) (snaps : Map Snapshot) (sent : ℕ) (reqs : List AlertRequest)
      (saved : Store × Option StoreError)
      → ((j : ℕ) → Enough (w.sending j).rounds)
      → Fits saved.0
      → (p : Poll) × (after_save parse_time c w snaps sent reqs saved ≡ some p) × Fits p.store
  unfolding after_save
  after_save-Fits c w snaps sent reqs (st, some e) enough h =
      (record { store = st; snaps = snaps; sent = sent }, refl, h)
  after_save-Fits c w snaps sent reqs (st, none) enough h =
      let (st', d, f) = deliver-Fits c.label w.sending 0 reqs st enough h in
      (record { store = st'; snaps = snaps; sent = sent + length reqs }, rw (d, after_save) refl, f)

-- The world of a poll leaves the outbox within its limit, and each delivery has enough rounds.
abbrev pub EnoughPolling : Polling → Type 0
EnoughPolling w =
    ((st : Store) → Fits st → Fits (w.meanwhile st)) × ((j : ℕ) → Enough (w.sending j).rounds)

sync_controllers_ends :
    (visits : List (Visit (ℕ → ℕ → Push))) (asked : Bool) (st : Store)
    → ComesToRest visits
    → (st' : Store) × (e : Option SyncError) × (sync_controllers visits asked st ≡ some (st', e))
unfolding sync_controllers
sync_controllers_ends visits asked st =
    single_flight_ends (λ world. sync_pass world max_sync_rounds) visits asked st

report_device_removals_ends :
    (sha256_hex : String → String) (visits : List (Visit (ℕ → Attempt))) (asked : Bool) (st : Store)
    → ComesToRest visits
    → (st' : Store) × (e : Option PassError) × (report_device_removals sha256_hex visits asked st
        ≡ some (st', e))
unfolding report_device_removals
report_device_removals_ends sha256_hex visits asked st =
    single_flight_ends (removal_pass sha256_hex every_due) visits asked st

push_pending_ends :
    (sha256_hex : String → String) (ending : Ending) (st : Store)
    → ComesToRest ending.syncs
    → ComesToRest ending.removals
    → (st' : Store) × (push_pending sha256_hex ending st ≡ some st')
unfolding push_pending
push_pending_ends sha256_hex ending st syncs removals =
    let (mid, _, d) = sync_controllers_ends ending.syncs ending.sync_asked st syncs in
    let (out, _, r) =
      report_device_removals_ends sha256_hex ending.removals ending.removal_asked mid removals in
    (out, rw (d, push_pending, r) refl)

module _ (rfc3339 : Time → String) (parse_time : String → Option Time)
    (fadd fsub : Float64 → Float64 → Float64) where
  poll_all-Fits :
      (world : ℕ → Polling) (i : ℕ) (cs : List Controller) (p : Poll)
      → ((j : ℕ) → EnoughPolling (world j))
      → Fits p.store
      → (p' : Poll) × (poll_all rfc3339 parse_time fadd fsub world i cs p ≡ some p') × Fits p'.store
  unfolding poll_all poll_controller
  poll_all-Fits world i [] p enough h = (p, refl, h)
  poll_all-Fits world i (c ∷ cs) p enough h = elim (Bool-cases (c.lan_address == "")) [
    | inl e ↦ let (p', d, f) = poll_all-Fits world (suc i) cs p enough h in (p', rw e d, f)
    | inr e ↦
        let w : Polling = world i in
        let snap : Snapshot = take_snapshot w.fetch w.now (snapshot_of c.guid p.snaps) in
        let out = evaluate_poll rfc3339 fadd fsub w.fetch c snap w.now in
        let saved =
          update w.persists (save_poll c.guid out.0 snap.last_success) (w.meanwhile p.store) in
        let (q, s, f) =
          after_save-Fits parse_time c w (insert c.guid snap p.snaps) p.sent out.1 saved
            (enough i).1
            (update-Fits w.persists (save_poll c.guid out.0 snap.last_success) (w.meanwhile p.store)
              ((enough i).0 p.store h)) in
        let (p', d, f') = poll_all-Fits world (suc i) cs q enough f in (p', rw (e, s) d, f')
  ]

  -- A tick comes back, whatever the drivers read, the cloud answers and the disk does: each of its
  -- deliveries needs no more than one round for each entry that the outbox can hold and one more,
  -- and the sync and the report of removals each no more than the passes up to one, after the first,
  -- that finds the lock taken or in the course of which no other caller asks for one more. The
  -- outbox is within its limit at the start, others keep it there, nobody else writes to the store in
  -- the middle of a delivery, and such a pass comes.
  pub tick_ends :
      (sha256_hex : String → String) (world : ℕ → Polling) (ending : Ending) (st : Store)
      (snaps : Map Snapshot)
      → ((j : ℕ) → EnoughPolling (world j))
      → Enough ending.rounds
      → ComesToRest ending.syncs
      → ComesToRest ending.removals
      → Fits st
      → (st' : Store) × (snaps' : Map Snapshot) × (tick rfc3339 parse_time fadd fsub sha256_hex
            world ending st snaps
          ≡ some (st', snaps'))
  unfolding tick
  tick_ends sha256_hex world ending st snaps enough more syncs removals h =
      let begun : Poll = record { store = st; snaps = snaps; sent = 0 } in
      let (p, d, f) = poll_all-Fits world 0 st.doc.controllers begun enough h in
      let (mid, m) = drain_idle-Fits parse_time ending.rounds p.sent p.store more f in
      let (out, u) = push_pending_ends sha256_hex ending mid syncs removals in
      (out, prune_snapshots st.doc.controllers p.snaps, rw (d, tick, m, u) refl)
