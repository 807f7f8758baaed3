-- ===== src/Poller/Frame.antt =====
-- internal/agent/poller/poller.go: a tick, and the document that it works on.
use poolpilot_relay.Prelude.{
  All, Bool, Bool-cases, List, Map, Option, Option-cases, String, [], arith, eqb, if◌then◌else◌,
  inl, inr, insert, is_some, none, refl, some, subst, suc, ℕ, ◌++◌, ◌==◌, ◌∙◌, ◌∷◌, ◌≡◌,
}
use poolpilot_relay.Cloud.Outbox.{DrainError, Round, drain, queue_alert, send_alert}
use poolpilot_relay.Go.Float64.{Float64}
use poolpilot_relay.Go.Time.{Time}
use poolpilot_relay.Poller.{
  Poll, Polling, Sending, Snapshot, after_save, deliver, drain_idle, evaluate_poll, poll_all,
  poll_controller, save_poll, snapshot_of, take_snapshot,
}
use poolpilot_relay.Poller.Configured.{
  Keeps, SameConfig, config, drain-SameConfig, save_poll-config, update-SameConfig,
}
use poolpilot_relay.State.Document.{Controller, State}
use poolpilot_relay.Store.{Store, StoreError, update}
use poolpilot_relay.Wire.Alerts.{AlertRequest}

abbrev pub send_result :
    Store
    → Option StoreError
    → Option (Store × Option DrainError)
    → Option (Store × Option StoreError)
send_result st1 e1 d =
    if is_some e1
    then some (st1, e1)
    else elim d [ none ↦ none | some (st'', _) ↦ some (st'', none) ]

branch-send :
    (st st1 st' : Store) (e1 e : Option StoreError) (d : Option (Store × Option DrainError))
    → SameConfig st st1
    → ((x : Store) (y : Option DrainError) → d ≡ some (x, y) → SameConfig st1 x)
    → send_result st1 e1 d ≡ some (st', e)
    → SameConfig st st'
branch-send st st1 st' (some x) e d k go h =
    let same : (st1 ≡ st') = ground (arith, h) in subst (SameConfig st) same k
branch-send st st1 st' none e none k go h = absurd (ground (arith, h))
branch-send st st1 st' none e (some (x, y)) k go h =
    let same : (x ≡ st') = ground (arith, h) in subst (SameConfig st) same (go x y refl ∙ k)

branch-deliver :
    (st st' : Store) (sent : Option (Store × Option StoreError)) (next : Store → Option Store)
    → ((x : Store) (e : Option StoreError) → sent ≡ some (x, e) → SameConfig st x)
    → ((x : Store) → next x ≡ some st' → SameConfig x st')
    → elim sent as (λ _. Option Store) [ none ↦ none | some (x, e) ↦ next x ] ≡ some st'
    → SameConfig st st'
branch-deliver st st' none next k go h = absurd (ground (arith, h))
branch-deliver st st' (some (x, e)) next k go h = go x h ∙ k x e refl

abbrev pub KeepsRounds : List Round → Type 0
KeepsRounds rounds = All (λ r. Keeps r.meanwhile) rounds

module _ (parse_time : String → Option Time) where
  send_alert-SameConfig :
      (req : AlertRequest) (persists : Bool) (rounds : List Round) (st st' : Store)
      (e : Option StoreError)
      → KeepsRounds rounds
      → send_alert parse_time req persists rounds st ≡ some (st', e)
      → SameConfig st st'
  unfolding send_alert queue_alert config
  send_alert-SameConfig req persists rounds st st' e k h =
      let queued = update persists (λ s. record s { outbox = s.outbox ++ (req ∷ []) }) st in
      branch-send st queued.0 st' queued.1 e (drain parse_time rounds queued.0)
        (update-SameConfig persists (λ s. record s { outbox = s.outbox ++ (req ∷ []) }) st
          (λ s. refl))
        (λ x y d. drain-SameConfig parse_time rounds queued.0 x y k d) h

  deliver-SameConfig :
      (label : String) (sending : ℕ → Sending) (i : ℕ) (reqs : List AlertRequest) (st st' : Store)
      → ((j : ℕ) → KeepsRounds (sending j).rounds)
      → deliver parse_time label sending i reqs st ≡ some st'
      → SameConfig st st'
  unfolding deliver
  deliver-SameConfig label sending i [] st st' k h =
      let same : (st ≡ st') = ground (arith, h) in subst (SameConfig st) same refl
  deliver-SameConfig label sending i (req ∷ reqs) st st' k h =
      let named : AlertRequest = record req { pool_label = label } in
      branch-deliver st st' (send_alert parse_time named (sending i).queues (sending i).rounds st)
        (deliver parse_time label sending (suc i) reqs)
        (λ x e s. send_alert-SameConfig named (sending i).queues (sending i).rounds st x e (k i) s)
        (λ x d. deliver-SameConfig label sending (suc i) reqs x st' k d) h

  pub drain_idle-SameConfig :
      (rounds : List Round) (sent : ℕ) (st st' : Store)
      → KeepsRounds rounds
      → drain_idle parse_time rounds sent st ≡ some st'
      → SameConfig st st'
  unfolding drain_idle
  drain_idle-SameConfig rounds sent st st' k h = elim (Bool-cases (eqb sent 0)) [
    | inl e ↦ elim (Option-cases (drain parse_time rounds st)) [
      | inl n ↦ absurd (ground (arith, h, e, n))
      | inr ((x, y), d) ↦
          let same : (x ≡ st') = ground (arith, h, e, d) in
          subst (SameConfig st) same (drain-SameConfig parse_time rounds st x y k d)
    ]
    | inr e ↦ let same : (st ≡ st') = ground (arith, h, e) in subst (SameConfig st) same refl
  ]

  after_save-SameConfig :
      (c : Controller) (w : Polling) (snaps : Map Snapshot) (sent : ℕ) (reqs : List AlertRequest)
      (saved : Store × Option StoreError) (p : Poll)
      → ((j : ℕ) → KeepsRounds (w.sending j).rounds)
      → after_save parse_time c w snaps sent reqs saved ≡ some p
      → SameConfig saved.0 p.store
  unfolding after_save
  after_save-SameConfig c w snaps sent reqs (st, some e) p k h =
      let same : (st ≡ p.store) = ground (arith, h) in subst (SameConfig st) same refl
  after_save-SameConfig c w snaps sent reqs (st, none) p k h =
      elim (Option-cases (deliver parse_time c.label w.sending 0 reqs st)) [
        | inl n ↦ absurd (ground (arith, h, n))
        | inr (st', d) ↦
            let same : (st' ≡ p.store) = ground (arith, h, d) in
            subst (SameConfig st) same (deliver-SameConfig c.label w.sending 0 reqs st st' k d)
      ]

-- What others do in the course of a poll keeps the configuration.
abbrev pub KeepsPolling : Polling → Type 0
KeepsPolling w = Keeps w.meanwhile × ((j : ℕ) → KeepsRounds (w.sending j).rounds)

module _ (rfc3339 : Time → String) (parse_time : String → Option Time)
    (fadd fsub : Float64 → Float64 → Float64) where
  poll_controller-SameConfig :
      (w : Polling) (c : Controller) (p p' : Poll)
      → KeepsPolling w
      → poll_controller rfc3339 parse_time fadd fsub w c p ≡ some p'
      → SameConfig p.store p'.store
  unfolding poll_controller
  poll_controller-SameConfig w c p p' (k, ks) h =
      let snap : Snapshot = take_snapshot w.fetch w.now (snapshot_of c.guid p.snaps) in
      let out = evaluate_poll rfc3339 fadd fsub w.fetch c snap w.now in
      let save : State → State = save_poll c.guid out.0 snap.last_success in
      after_save-SameConfig parse_time c w (insert c.guid snap p.snaps) p.sent out.1
        (update w.persists save (w.meanwhile p.store)) p' ks h
      ∙ update-SameConfig w.persists save (w.meanwhile p.store)
          (save_poll-config c.guid out.0 snap.last_success)
      ∙ k p.store

  pub poll_all-SameConfig :
      (world : ℕ → Polling) (i : ℕ) (cs : List Controller) (p p' : Poll)
      → ((j : ℕ) → KeepsPolling (world j))
      → poll_all rfc3339 parse_time fadd fsub world i cs p ≡ some p'
      → SameConfig p.store p'.store
  unfolding poll_all
  poll_all-SameConfig world i [] p p' k h =
      let same : (p ≡ p') = ground (arith, h) in subst (λ q. SameConfig p.store q.store) same refl
  poll_all-SameConfig world i (c ∷ cs) p p' k h = elim (Bool-cases (c.lan_address == "")) [
    | inl e ↦ poll_all-SameConfig world (suc i) cs p p' k (ground (arith, h, e))
    | inr e ↦ elim (Option-cases (poll_controller rfc3339 parse_time fadd fsub (world i) c p)) [
      | inl n ↦ absurd (ground (arith, h, e, n))
      | inr (q, d) ↦
          poll_all-SameConfig world (suc i) cs q p' k (ground (arith, h, e, d))
          ∙ poll_controller-SameConfig (world i) c p q (k i) d
    ]
  ]
