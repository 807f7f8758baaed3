-- ===== src/Poller.antt =====
-- internal/agent/poller/poller.go: one tick of the poller. What the world answers to the poll of a
-- controller is a value: what the driver reads, the clock, what others do to the store before the
-- rule states are written, whether that write persists, and what each alert's delivery meets.
pub mod Address
pub mod Merged
pub mod Named
pub mod Configured
pub mod Frame
pub mod Synced
pub mod Tick
pub mod Whole
pub mod Ends
use poolpilot_relay.Prelude.{
  Bool, List, Map, Option, String, [], any, eqb, false, if◌then◌else◌, insert, length, lookup, none,
  restrict, some, suc, true, ℕ, ◌++◌, ◌+◌, ◌==◌, ◌∷◌,
}
use poolpilot_relay.Alert.Engine.{RuleState}
use poolpilot_relay.Alert.Evaluate.{evaluate}
use poolpilot_relay.Alert.Stale.{evaluate_stale}
use poolpilot_relay.Cloud.Flight.{Visit}
use poolpilot_relay.Cloud.Outbox.{Round, drain, send_alert}
use poolpilot_relay.Cloud.Removals.Pass.{Attempt, report_device_removals}
use poolpilot_relay.Cloud.Sync.{Push, sync_controllers}
use poolpilot_relay.Go.Float64.{Float64}
use poolpilot_relay.Go.Time.{Time, zero_time}
use poolpilot_relay.Measure.{ControlConfig, Reading}
use poolpilot_relay.State.Controllers.{modify_controller}
use poolpilot_relay.State.Document.{Controller, State}
use poolpilot_relay.Store.{Store, StoreError, update}
use poolpilot_relay.Wire.Alerts.{AlertRequest, AlertRule}

pub record Snapshot : Type 0 where
  pub last_poll_at : Time
  pub last_success : Time
  pub reachable : Bool
  pub readings : List Reading
  pub control : Map ControlConfig

abbrev pub no_snapshot : Snapshot
no_snapshot = record {
  last_poll_at = zero_time;
  last_success = zero_time;
  reachable = false;
  readings = [];
  control = [];
}

-- `Snapshot(guid)`: the latest outcome, or the zero value.
unfoldable pub snapshot_of : String → Map Snapshot → Snapshot
snapshot_of guid snaps = elim (lookup guid snaps) [ none ↦ no_snapshot | some snap ↦ snap ]

-- `New`'s seeding: the last success of each controller that has a GUID.
unfoldable pub seed_snapshots : List Controller → Map Snapshot → Map Snapshot
seed_snapshots [] snaps = snaps
seed_snapshots (c ∷ cs) snaps =
    if c.guid == ""
    then seed_snapshots cs snaps
    else seed_snapshots cs
        (insert c.guid (record no_snapshot { last_success = c.last_success_at }) snaps)

-- A driver without `ControlConfig`, an error of it, or what it reads.
pub data ControlFetch : Type 0 where
  no_reader control_failed : ControlFetch
  control_read : Map ControlConfig → ControlFetch

-- No driver for the preset or no readings, or the readings and the regulation config.
pub data Fetch : Type 0 where
  poll_failed : Fetch
  polled : List Reading → ControlFetch → Fetch

unfoldable pub next_control : ControlFetch → Map ControlConfig → Map ControlConfig
next_control no_reader earlier = []
next_control control_failed earlier = earlier
next_control (control_read control) earlier = control

unfoldable pub take_snapshot : Fetch → Time → Snapshot → Snapshot
unfolding next_control
take_snapshot poll_failed now snap = record snap { last_poll_at = now; reachable = false }
take_snapshot (polled readings fetch) now snap = record {
  last_poll_at = now;
  last_success = now;
  reachable = true;
  readings = readings;
  control = next_control fetch snap.control;
}

-- The rule states that are kept, by the rules of the document that is written.
abbrev pub keep_state : String → Option RuleState → Map RuleState → Map RuleState
keep_state id none merged = merged
keep_state id (some rs) merged = insert id rs merged

unfoldable pub merge_states : List AlertRule → Map RuleState → Map RuleState
merge_states [] states = []
merge_states (rule ∷ rules) states =
    keep_state rule.id (lookup rule.id states) (merge_states rules states)

-- The closure that persists the states.
unfoldable pub save_poll : String → Map RuleState → Time → State → State
unfolding merge_states
save_poll guid states last_success s = record s {
  controllers =
      modify_controller guid
        (λ c. record c {
          alert_state = merge_states c.alert_rules states;
          last_success_at = last_success;
        })
        s.controllers;
}

-- What the delivery of one alert meets: whether queueing it persists, and the rounds of the drain.
pub record Sending : Type 0 where
  pub queues : Bool
  pub rounds : List Round

pub record Polling : Type 0 where
  pub fetch : Fetch
  pub now : Time
  pub meanwhile : Store → Store
  pub persists : Bool
  pub sending : ℕ → Sending

-- The store, the snapshots, and the number of alerts of the tick so far.
pub record Poll : Type 0 where
  pub store : Store
  pub snaps : Map Snapshot
  pub sent : ℕ

-- `prune`: the snapshots of the controllers in the tick's document.
unfoldable pub prune_snapshots : List Controller → Map Snapshot → Map Snapshot
prune_snapshots cs snaps = restrict (λ guid. any (λ c. c.guid == guid) cs) snaps

-- What the calls at the end of a tick meet.
pub record Ending : Type 0 where
  pub rounds : List Round
  pub syncs : List (Visit (ℕ → ℕ → Push))
  pub sync_asked : Bool
  pub removals : List (Visit (ℕ → Attempt))
  pub removal_asked : Bool

-- The two calls at the end of a tick; `none` where their visits end early.
unfoldable pub push_pending : (String → String) → Ending → Store → Option Store
unfolding sync_controllers report_device_removals
push_pending sha256_hex ending st = elim (sync_controllers ending.syncs ending.sync_asked st) [
  | none ↦ none
  | some (st', e) ↦
      elim (report_device_removals sha256_hex ending.removals ending.removal_asked st') [
        | none ↦ none
        | some (st'', e') ↦ some st''
      ]
]

module _ (rfc3339 : Time → String) (fadd fsub : Float64 → Float64 → Float64) where
  -- The rule states and alerts of one poll: the banded rules see only fresh readings.
  unfoldable pub evaluate_poll :
      Fetch → Controller → Snapshot → Time → Map RuleState × List AlertRequest
  evaluate_poll poll_failed c snap now =
      evaluate_stale rfc3339 c.alert_rules c.alert_state snap.last_success c.guid now
  evaluate_poll (polled readings fetch) c snap now =
      let (states, out) =
        evaluate rfc3339 fadd fsub c.alert_rules c.alert_state snap.readings snap.control c.guid
          now in
      let (states', more) =
        evaluate_stale rfc3339 c.alert_rules states snap.last_success c.guid now in
      (states', out ++ more)

module _ (parse_time : String → Option Time) where
  -- The alerts go out under the controller's present name; `none` where the rounds end early.
  unfoldable pub deliver : String → (ℕ → Sending) → ℕ → List AlertRequest → Store → Option Store
  deliver label sending i [] st = some st
  deliver label sending i (req ∷ reqs) st =
      elim (send_alert parse_time (record req { pool_label = label }) (sending i).queues
        (sending i).rounds st) [
          | none ↦ none
          | some (st', e) ↦ deliver label sending (suc i) reqs st'
        ]

  -- The end of `pollController`, by what the write comes back with.
  unfoldable pub after_save :
      Controller
      → Polling
      → Map Snapshot
      → ℕ
      → List AlertRequest
      → Store × Option StoreError
      → Option Poll
  after_save c w snaps sent requests (st, some e) =
      some (record { store = st; snaps = snaps; sent = sent })
  after_save c w snaps sent requests (st, none) = elim (deliver c.label w.sending 0 requests st) [
    | none ↦ none
    | some st' ↦ some (record { store = st'; snaps = snaps; sent = sent + length requests })
  ]

  -- The drain at the end, where the tick has sent no alert.
  unfoldable pub drain_idle : List Round → ℕ → Store → Option Store
  drain_idle rounds sent st =
      if eqb sent 0
      then elim (drain parse_time rounds st) [ none ↦ none | some (st', e) ↦ some st' ]
      else some st

module _ (rfc3339 : Time → String) (parse_time : String → Option Time)
    (fadd fsub : Float64 → Float64 → Float64) where
  unfoldable pub poll_controller : Polling → Controller → Poll → Option Poll
  unfolding save_poll take_snapshot
  poll_controller w c p =
      let snap = take_snapshot w.fetch w.now (snapshot_of c.guid p.snaps) in
      let (states, requests) = evaluate_poll rfc3339 fadd fsub w.fetch c snap w.now in
      after_save parse_time c w (insert c.guid snap p.snaps) p.sent requests
        (update w.persists (save_poll c.guid states snap.last_success) (w.meanwhile p.store))

  -- The loop of `tick` over the controllers of its document, the `i`th of which meets `world i`.
  unfoldable pub poll_all : (ℕ → Polling) → ℕ → List Controller → Poll → Option Poll
  poll_all world i [] p = some p
  poll_all world i (c ∷ cs) p =
      if c.lan_address == ""
      then poll_all world (suc i) cs p
      else elim (poll_controller (world i) c p) [
        | none ↦ none
        | some p' ↦ poll_all world (suc i) cs p'
      ]

  unfoldable pub tick :
      (String → String)
      → (ℕ → Polling)
      → Ending
      → Store
      → Map Snapshot
      → Option (Store × Map Snapshot)
  unfolding push_pending
  tick sha256_hex world ending st snaps =
      elim (poll_all world 0 st.doc.controllers (record { store = st; snaps = snaps; sent = 0 })) [
        | none ↦ none
        | some p ↦ elim (drain_idle parse_time ending.rounds p.sent p.store) [
          | none ↦ none
          | some st' ↦ elim (push_pending sha256_hex ending st') [
            | none ↦ none
            | some st'' ↦ some (st'', prune_snapshots st.doc.controllers p.snaps)
          ]
        ]
      ]
