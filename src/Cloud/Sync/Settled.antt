-- ===== src/Cloud/Sync/Settled.antt =====
-- internal/agent/cloud/cloud.go: a pass of the sync that the cloud answers.
use mathlib.Core.List.{append_assoc}
use poolpilot_relay.Prelude.{
  Bool-cases, List, Option, [], ap, arith, eqb, false, inl, inr, map, none, not, refl, subst, suc,
  sym, true, zero, ℕ, ◌&&◌, ◌++◌, ◌==◌, ◌||◌, ◌∙◌, ◌∷◌, ◌≡◌,
}
use poolpilot_relay.Cloud.Sync.{
  Push, SyncError, SyncRound, after_answer, after_round, clear_pending, needs_sync, push_controller,
  settled_first, settled_flag, sync_pass, sync_round, unless_stuck,
}
use poolpilot_relay.Cloud.Sync.Cleared.{
  Accepts, Apart, Apart-snoc, Distinct, Ready, clear-lands, flag_cleared, flag_cleared-guid,
  map-cleared_twice, map-flag_cleared-Distinct,
}
use poolpilot_relay.Lifecycle.Answer.{park}
use poolpilot_relay.State.Document.{Controller, lifecycle_suspended, lifecycle_unknown}
use poolpilot_relay.State.Household.{enrolled, tunnel_parked}
use poolpilot_relay.Store.{Store, update}

Ready-cloud :
    (st st' : Store) → st'.wiped ≡ false → st'.doc.cloud ≡ st.doc.cloud → Ready st → Ready st'
unfolding enrolled tunnel_parked
Ready-cloud st st' w e (_, en, park) = (
  w,
  subst (λ c. not (c.frpc_token == "") ≡ true) (sym e) en,
  subst
      (λ c.
        not (c.frpc_token == "")
          && ((c.lifecycle == lifecycle_suspended) || (c.lifecycle == lifecycle_unknown))
        ≡ false)
      (sym e) park,
)

settled-push :
    (p : Push) (c : Controller) (st st' : Store)
    → Accepts p
    → enrolled st.doc ≡ true
    → update true (clear_pending c.guid c.config_rev) st ≡ (st', none)
    → push_controller p c st ≡ settled_flag st'
unfolding push_controller after_answer
settled-push p c st st' (ok, lands, alone) en u = rw (en, ok, lands, alone st, u) refl

cleared_same : (c : Controller) → needs_sync c ≡ false → flag_cleared c ≡ c
unfolding flag_cleared needs_sync
cleared_same c n = elim (Bool-cases (c.guid == "")) [
  | inl e ↦ ground (arith, e)
  | inr e ↦
      let off : c.cloud_sync_pending ≡ false = ground (arith, n, e) in
      rw e (λ i. record c { cloud_sync_pending = sym off i })
]

-- What a round leaves: nothing went wrong, all that was pending was accepted, and the flags of what
-- it went through are cleared.
abbrev RoundClears : SyncRound → List Controller → Type 0
RoundClears r target =
    (r.stuck ≡ none)
    × (r.first_error ≡ none)
    × (r.pending ≡ r.accepted)
    × (r.store.doc.controllers ≡ target)
    × Ready r.store

settled-RoundClears :
    (r : SyncRound) (target : List Controller)
    → RoundClears r target
    → RoundClears (settled_first r) target
unfolding settled_first
settled-RoundClears r target (a, b, d, e, f) = (a, b, ap suc d, e, f)

cons_seen :
    (seen : List Controller) (c : Controller) (rest : List Controller)
    → (seen ++ (c ∷ [])) ++ rest ≡ seen ++ (c ∷ rest)
cons_seen seen c rest = append_assoc seen (c ∷ []) rest

empty-clears :
    (world : ℕ → Push) (i : ℕ) (st : Store) (seen : List Controller)
    → st.doc.controllers ≡ seen ++ []
    → Ready st
    → RoundClears (sync_round world i [] st) (seen ++ [])
unfolding sync_round
empty-clears world i st seen e ready = (refl, refl, refl, e, ready)

round-pending :
    (world : ℕ → Push) (i : ℕ) (c : Controller) (rest : List Controller) (st st' : Store)
    → needs_sync c ≡ true
    → push_controller (world i) c st ≡ settled_flag st'
    → sync_round world i (c ∷ rest) st ≡ settled_first (sync_round world (suc i) rest st')
unfolding sync_round
round-pending world i c rest st st' n p = rw (n, p) refl

round-skips :
    (world : ℕ → Push) (i : ℕ) (c : Controller) (rest : List Controller) (st : Store)
    → needs_sync c ≡ false
    → sync_round world i (c ∷ rest) st ≡ sync_round world (suc i) rest st
unfolding sync_round
round-skips world i c rest st n = rw n refl

round-clears :
    (world : ℕ → Push) (i : ℕ) (seen rest : List Controller) (st : Store)
    → ((j : ℕ) → Accepts (world j))
    → Ready st
    → st.doc.controllers ≡ seen ++ rest
    → Apart seen rest
    → Distinct rest
    → RoundClears (sync_round world i rest st) (seen ++ map flag_cleared rest)
round-clears world i seen [] st ok ready e a d = empty-clears world i st seen e ready
round-clears world i seen (c ∷ rest) st ok ready e a d = elim (Bool-cases (needs_sync c)) [
  | inl n ↦
      let (st', u, w, cl, e') = clear-lands c seen rest st n ready.0 e a.0 in
      let next =
        round-clears world (suc i) (seen ++ (flag_cleared c ∷ [])) rest st' ok
          (Ready-cloud st st' w cl ready) (e' ∙ sym (cons_seen seen (flag_cleared c) rest))
          (Apart-snoc seen (flag_cleared c) c.guid rest (flag_cleared-guid c) d.0 a.1) d.1 in
      subst (λ target. RoundClears (sync_round world i (c ∷ rest) st) target)
        (cons_seen seen (flag_cleared c) (map flag_cleared rest))
        (subst (λ r. RoundClears r ((seen ++ (flag_cleared c ∷ [])) ++ map flag_cleared rest))
          (sym (
            round-pending world i c rest st st' n
              (settled-push (world i) c st st' (ok i) ready.1 u)))
          (settled-RoundClears (sync_round world (suc i) rest st')
            ((seen ++ (flag_cleared c ∷ [])) ++ map flag_cleared rest) next))
  | inr n ↦
      let next =
        round-clears world (suc i) (seen ++ (c ∷ [])) rest st ok ready
          (e ∙ sym (cons_seen seen c rest)) (Apart-snoc seen c c.guid rest refl d.0 a.1) d.1 in
      subst (λ target. RoundClears (sync_round world i (c ∷ rest) st) target)
        (cons_seen seen c (map flag_cleared rest)
          ∙ ap (λ x. seen ++ (x ∷ map flag_cleared rest)) (sym (cleared_same c n)))
        (subst (λ r. RoundClears r ((seen ++ (c ∷ [])) ++ map flag_cleared rest))
          (sym (round-skips world i c rest st n)) next)
]

after-clears :
    (next : Store → Store × Option SyncError) (r : SyncRound) (target : List Controller)
    → RoundClears r target
    → ((next r.store).1 ≡ none) × ((next r.store).0.doc.controllers ≡ target)
    → ((after_round next r).1 ≡ none) × ((after_round next r).0.doc.controllers ≡ target)
unfolding after_round unless_stuck
after-clears next r target (a, b, d, e, f) k =
    elim (Bool-cases (eqb r.pending 0 || eqb r.accepted 0)) [
      | inl z ↦ rw (a, z, b) (refl, e)
      | inr z ↦ rw (a, z) k
    ]

nothing_seen : (cs : List Controller) → Apart [] cs
nothing_seen [] = tt
nothing_seen (c ∷ cs) = (tt, nothing_seen cs)

pass-first :
    (world : ℕ → ℕ → Push) (rounds : ℕ) (st : Store)
    → tunnel_parked st.doc ≡ false
    → sync_pass world (suc rounds) st
      ≡ after_round (sync_pass world rounds) (sync_round (world rounds) 0 st.doc.controllers st)
unfolding sync_pass
pass-first world rounds st p = rw p refl

pass_end : (world : ℕ → ℕ → Push) (st : Store) → sync_pass world zero st ≡ (st, none)
unfolding sync_pass
pass_end world st = refl

-- The passes that follow a first round find nothing to do.
rest-clears :
    (world : ℕ → ℕ → Push) (rounds : ℕ) (st : Store) (cs : List Controller)
    → ((i j : ℕ) → Accepts (world i j))
    → Ready st
    → Distinct cs
    → st.doc.controllers ≡ map flag_cleared cs
    → ((sync_pass world rounds st).1 ≡ none)
      × ((sync_pass world rounds st).0.doc.controllers ≡ map flag_cleared cs)
rest-clears world zero st cs ok ready d e = rw (pass_end world st) (refl, e)
rest-clears world (suc rounds) st cs ok ready d e =
    let apart : Distinct st.doc.controllers =
      subst Distinct (sym e) (map-flag_cleared-Distinct cs d) in
    let r =
      round-clears (world rounds) 0 [] st.doc.controllers st (ok rounds) ready refl
        (nothing_seen st.doc.controllers) apart in
    let same : (map flag_cleared st.doc.controllers ≡ map flag_cleared cs) =
      ap (map flag_cleared) e ∙ map-cleared_twice cs in
    let first =
      after-clears (sync_pass world rounds) (sync_round (world rounds) 0 st.doc.controllers st)
        (map flag_cleared cs)
        (subst (RoundClears (sync_round (world rounds) 0 st.doc.controllers st)) same r)
        (rest-clears world rounds (sync_round (world rounds) 0 st.doc.controllers st).store cs ok
          r.4 d (r.3 ∙ same)) in
    rw (pass-first world rounds st ready.2) first

-- Where the cloud takes every configuration, each clear persists and nobody else changes the store,
-- a pass of at least one round comes back without an error and with no flag left on a controller
-- that has a GUID, and changes nothing else of the controllers. The relay is enrolled and not
-- parked, the store may be written, and no two controllers share a GUID.
pub sync_pass_clears :
    (world : ℕ → ℕ → Push) (rounds : ℕ) (st : Store)
    → ((i j : ℕ) → Accepts (world i j))
    → Ready st
    → Distinct st.doc.controllers
    → ((sync_pass world (suc rounds) st).1 ≡ none)
      × ((sync_pass world (suc rounds) st).0.doc.controllers ≡ map flag_cleared st.doc.controllers)
sync_pass_clears world rounds st ok ready d =
    let r =
      round-clears (world rounds) 0 [] st.doc.controllers st (ok rounds) ready refl
        (nothing_seen st.doc.controllers) d in
    let first =
      after-clears (sync_pass world rounds) (sync_round (world rounds) 0 st.doc.controllers st)
        (map flag_cleared st.doc.controllers) r
        (rest-clears world rounds (sync_round (world rounds) 0 st.doc.controllers st).store
          st.doc.controllers ok r.4 d r.3) in
    rw (pass-first world rounds st ready.2) first
