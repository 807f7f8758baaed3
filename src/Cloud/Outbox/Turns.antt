-- ===== src/Cloud/Outbox/Turns.antt =====
-- One round of a delivery, where nobody else writes to the store meanwhile.
use poolpilot_relay.Prelude.{
  Bool, Bool-cases, List, Option, String, [], ap, arith, drop, false, inl, inr, is_some, length,
  none, refl, some, subst, sym, true, ◌∙◌, ◌∷◌, ◌≡◌, ◌≤◌,
}
use poolpilot_relay.Cloud.Outbox.{
  Round, Turn, drain_round, goes_on, keeps_head, not_persisted, pop_front, pop_outbox_head, returns,
  unavailable,
}
use poolpilot_relay.Go.Time.{Time}
use poolpilot_relay.State.Document.{outbox_limit}
use poolpilot_relay.State.Household.{tunnel_parked}
use poolpilot_relay.State.Removals.{cap_outbox}
use poolpilot_relay.Store.{Store, normalize}
use poolpilot_relay.Store.Cases.{update-cases}
use poolpilot_relay.Wire.Alerts.{AlertRequest}

abbrev pub IsQuiet : Round → Type 0
IsQuiet r = (st : Store) → r.meanwhile st ≡ st

capped : (q : List AlertRequest) → length q ≤ outbox_limit → cap_outbox q ≡ q
unfolding cap_outbox
capped q h = ground (arith, h)

popped :
    (persists : Bool) (st : Store) (head : AlertRequest) (rest : List AlertRequest)
    → st.doc.outbox ≡ head ∷ rest
    → length rest ≤ outbox_limit
    → ((pop_outbox_head persists st).1 ≡ none)
    → (pop_outbox_head persists st).0.doc.outbox ≡ rest
unfolding pop_outbox_head normalize
popped persists st head rest e h n = elim (update-cases persists pop_front st) [
  | inr (x, f) ↦ absurd (ground (arith, f, n))
  | inl f ↦ ap (λ x. x.0.doc.outbox) f ∙ ap (λ q. cap_outbox (drop 1 q)) e ∙ capped rest h
]

failed_pop :
    (persists : Bool) (st : Store)
    → is_some (pop_outbox_head persists st).1 ≡ true
    → (pop_outbox_head persists st).0 ≡ st
unfolding pop_outbox_head
failed_pop persists st h = elim (update-cases persists pop_front st) [
  | inr (x, f) ↦ ap (λ x. x.0) f
  | inl f ↦ absurd (ground (arith, f, h))
]

module _ (parse_time : String → Option Time) where
  -- The ends of a quiet round on a queue.
  pub data TurnOf (r : Round) (st : Store) : List AlertRequest → Turn → Type 0 where
    delivered_all : TurnOf r st [] (returns st none)
    parked :
        (head : AlertRequest) (rest : List AlertRequest)
        → tunnel_parked st.doc ≡ true
        → TurnOf r st (head ∷ rest) (returns st none)
    keeps :
        (head : AlertRequest) (rest : List AlertRequest)
        → keeps_head parse_time head rest r ≡ true
        → TurnOf r st (head ∷ rest) (returns st (some unavailable))
    unwritten :
        (head : AlertRequest) (rest : List AlertRequest)
        → TurnOf r st (head ∷ rest) (returns st (some not_persisted))
    pops :
        (head : AlertRequest) (rest : List AlertRequest) (st' : Store)
        → keeps_head parse_time head rest r ≡ false
        → st'.doc.outbox ≡ rest
        → TurnOf r st (head ∷ rest) (goes_on st')

  round-TurnOf :
      (r : Round) (st : Store) (q : List AlertRequest)
      → IsQuiet r
      → st.doc.outbox ≡ q
      → length q ≤ outbox_limit
      → TurnOf r st q (drain_round parse_time r st q)
  unfolding drain_round
  round-TurnOf r st [] z e h = delivered_all
  round-TurnOf r st (head ∷ rest) z e h = elim (Bool-cases (tunnel_parked st.doc)) [
    | inl p ↦ rw (p, drain_round) (parked head rest p)
    | inr p ↦ elim (Bool-cases (keeps_head parse_time head rest r)) [
      | inl k ↦ rw (p, k, z st, drain_round) (keeps head rest k)
      | inr k ↦ elim (Bool-cases (is_some (pop_outbox_head r.persists st).1)) [
        | inl w ↦ rw (p, k, z st, w, failed_pop r.persists st w, drain_round) (unwritten head rest)
        | inr w ↦
            rw (p, k, z st, w, drain_round)
              (pops head rest (pop_outbox_head r.persists st).0 k
                (popped r.persists st head rest e (omega (arith, h)) (ground (arith, w))))
      ]
    ]
  ]

  pub quiet_turn :
      (r : Round) (st : Store) (q : List AlertRequest)
      → IsQuiet r
      → st.doc.outbox ≡ q
      → length q ≤ outbox_limit
      → TurnOf r st q (drain_round parse_time r st st.doc.outbox)
  quiet_turn r st q z o h =
      subst (λ x. TurnOf r st x (drain_round parse_time r st st.doc.outbox)) o
        (round-TurnOf r st st.doc.outbox z refl (subst (λ x. length x ≤ outbox_limit) (sym o) h))
