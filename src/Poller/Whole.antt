-- ===== src/Poller/Whole.antt =====
-- internal/agent/poller/poller.go: what a whole tick leaves of the document and of the snapshots.
use poolpilot_relay.Prelude.{
  Bool-cases, List, Map, Option, Option-cases, String, any, arith, inl, inr, lookup,
  lookup-restrict, none, refl, some, subst, true, ℕ, ◌==◌, ◌∙◌, ◌≡◌, ◌⊎◌,
}
use poolpilot_relay.Cloud.Removals.Pass.{report_device_removals}
use poolpilot_relay.Cloud.Sync.{sync_controllers}
use poolpilot_relay.Go.Float64.{Float64}
use poolpilot_relay.Go.Time.{Time}
use poolpilot_relay.Poller.{
  Ending, Poll, Polling, Snapshot, drain_idle, poll_all, prune_snapshots, push_pending, tick,
}
use poolpilot_relay.Poller.Configured.{SameConfig, config}
use poolpilot_relay.Poller.Frame.{
  KeepsPolling, KeepsRounds, drain_idle-SameConfig, poll_all-SameConfig,
}
use poolpilot_relay.Poller.Synced.{KeepsSyncs, sync_controllers-SameConfig}
use poolpilot_relay.Poller.Tick.{KeepsRemovals, report-SameConfig}
use poolpilot_relay.State.Document.{Controller}
use poolpilot_relay.Store.{Store}

-- What others do in the course of the calls at the end of a tick keeps the configuration.
abbrev pub KeepsEnding : Ending → Type 0
KeepsEnding e = KeepsRounds e.rounds × KeepsSyncs e.syncs × KeepsRemovals e.removals

-- A snapshot that is left is of one of the controllers.
pruned-lookup :
    (cs : List Controller) (snaps : Map Snapshot) (guid : String)
    → (lookup guid (prune_snapshots cs snaps) ≡ none) ⊎ (any (λ c. c.guid == guid) cs ≡ true)
unfolding prune_snapshots
pruned-lookup cs snaps guid = elim (Bool-cases (any (λ c. c.guid == guid) cs)) [
  | inl e ↦ inr e
  | inr e ↦ inl (lookup-restrict (λ g. any (λ c. c.guid == g) cs) guid snaps ∙ rw e refl)
]

push_pending-SameConfig :
    (sha256_hex : String → String) (ending : Ending) (st st' : Store)
    → KeepsEnding ending
    → push_pending sha256_hex ending st ≡ some st'
    → SameConfig st st'
unfolding push_pending
push_pending-SameConfig sha256_hex ending st st' (_, syncs, removals) h =
    elim (Option-cases (sync_controllers ending.syncs ending.sync_asked st)) [
      | inl n ↦ absurd (ground (arith, h, n))
      | inr ((mid, e), d) ↦
          elim (Option-cases
            (report_device_removals sha256_hex ending.removals ending.removal_asked mid)) [
              | inl n ↦ absurd (ground (arith, h, d, n))
              | inr ((out, e'), r) ↦
                  let same : out ≡ st' = ground (arith, h, d, r) in
                  subst (SameConfig st) same (
                    report-SameConfig sha256_hex ending.removals ending.removal_asked mid out e'
                      removals r
                    ∙ sync_controllers-SameConfig ending.syncs ending.sync_asked st mid e syncs d)
            ]
    ]

module _ (rfc3339 : Time → String) (parse_time : String → Option Time)
    (fadd fsub : Float64 → Float64 → Float64) where
  -- A tick that comes back has left the configuration alone: the credentials, the devices, the
  -- settings, and of every controller all but its rule states, its last success and the flag of the
  -- sync, as long as nobody else changes it meanwhile; and every snapshot that is left is of a
  -- controller of the document that the tick began with.
  pub tick_keeps :
      (sha256_hex : String → String) (world : ℕ → Polling) (ending : Ending) (st st' : Store)
      (snaps snaps' : Map Snapshot) (guid : String)
      → ((j : ℕ) → KeepsPolling (world j))
      → KeepsEnding ending
      → tick rfc3339 parse_time fadd fsub sha256_hex world ending st snaps ≡ some (st', snaps')
      → (config st'.doc ≡ config st.doc)
        × ((lookup guid snaps' ≡ none) ⊎ (any (λ c. c.guid == guid) st.doc.controllers ≡ true))
  unfolding tick
  tick_keeps sha256_hex world ending st st' snaps snaps' guid k ends h =
      let begun : Poll = record { store = st; snaps = snaps; sent = 0 } in
      elim (Option-cases (poll_all rfc3339 parse_time fadd fsub world 0 st.doc.controllers begun)) [
        | inl n ↦ absurd (ground (arith, h, n))
        | inr (p, d) ↦ elim (Option-cases (drain_idle parse_time ending.rounds p.sent p.store)) [
          | inl n ↦ absurd (ground (arith, h, d, n))
          | inr (mid, m) ↦ elim (Option-cases (push_pending sha256_hex ending mid)) [
            | inl n ↦ absurd (ground (arith, h, d, m, n))
            | inr (out, u) ↦
                let same : out ≡ st' = ground (arith, h, d, m, u) in
                let left : prune_snapshots st.doc.controllers p.snaps ≡ snaps' =
                  ground (arith, h, d, m, u) in
                (
                  subst (SameConfig st) same (
                      push_pending-SameConfig sha256_hex ending mid out ends u
                      ∙ drain_idle-SameConfig parse_time ending.rounds p.sent p.store mid ends.0 m
                      ∙ poll_all-SameConfig rfc3339 parse_time fadd fsub world 0 st.doc.controllers
                          begun p k d),
                  subst
                      (λ s.
                        (lookup guid s ≡ none)
                        ⊎ (any (λ c. c.guid == guid) st.doc.controllers ≡ true))
                      left (pruned-lookup st.doc.controllers p.snaps guid),
                )
          ]
        ]
      ]
