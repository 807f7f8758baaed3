-- ===== src/Cloud/Outbox/Fates.antt =====
-- What becomes of the head of the queue in a round, by its age and the status of the answer.
use poolpilot_relay.Prelude.{
  Bool-cases, List, Option, String, any, arith, false, inl, inr, refl, some, true, ℕ, ◌<◌, ◌==◌,
  ◌≡◌, ◌≢◌, ◌≤◌, ◌⊎◌,
}
use poolpilot_relay.Cloud.Outbox.{
  Delivery, Round, alert_staleness, http_status, is_deferred, keeps_head, stale_alert, unanswered,
}
use poolpilot_relay.Cloud.Outbox.Stale.{stale_alert_iff}
use poolpilot_relay.Go.Time.{Time, sub_time}
use poolpilot_relay.Prelude.Int.{◌<ℤ◌}
use poolpilot_relay.Wire.Alerts.{AlertRequest, transition_recover}

-- It is not sent: its readable time is more than an hour ago, and it is not a recovery that is the
-- last word on its rule.
abbrev pub IsExpired : (String → Option Time) → AlertRequest → List AlertRequest → Time → Type 0
IsExpired parse_time head rest now =
    (occurred : Time) × (head.occurred_at ≢ "")
    × (parse_time head.occurred_at ≡ some occurred)
    × (alert_staleness <ℤ sub_time now occurred)
    × ((head.transition ≡ transition_recover) → any (λ r. r.rule_id == head.rule_id) rest ≡ true)

-- A status that the cloud answers for good: neither of the 5xx, nor 401, nor 403.
abbrev pub IsFinal : Delivery → Type 0
IsFinal d = (n : ℕ) × (d ≡ http_status n) × (n < 500) × (n ≢ 401) × (n ≢ 403)

-- No answer, or one of the others.
abbrev pub IsPutOff : Delivery → Type 0
IsPutOff d =
    (d ≡ unanswered) ⊎ ((n : ℕ) × (d ≡ http_status n) × ((500 ≤ n) ⊎ ((n ≡ 401) ⊎ (n ≡ 403))))

answered-IsFinal : (d : Delivery) → is_deferred d ≡ false → IsFinal d
unfolding is_deferred
answered-IsFinal unanswered h = absurd (ground (arith, h))
answered-IsFinal (http_status n) h =
    (n, refl, ground (arith, h), λ e. ground (arith, h, e), λ e. ground (arith, h, e))

deferred-IsPutOff : (d : Delivery) → is_deferred d ≡ true → IsPutOff d
unfolding is_deferred
deferred-IsPutOff unanswered h = inl refl
deferred-IsPutOff (http_status n) h = inr (n, refl, ground (arith, h))

module _ (parse_time : String → Option Time) where
  pub popped-Fate :
      (head : AlertRequest) (rest : List AlertRequest) (r : Round)
      → keeps_head parse_time head rest r ≡ false
      → IsExpired parse_time head rest r.now ⊎ IsFinal r.answer
  unfolding keeps_head
  popped-Fate head rest r k = elim (Bool-cases (stale_alert parse_time head rest r.now)) [
    | inl e ↦ inl ((stale_alert_iff parse_time head rest r.now).0 e)
    | inr e ↦ inr (answered-IsFinal r.answer (ground (arith, k, e)))
  ]

  pub kept-Fate :
      (head : AlertRequest) (rest : List AlertRequest) (r : Round)
      → keeps_head parse_time head rest r ≡ true
      → (¬ IsExpired parse_time head rest r.now) × IsPutOff r.answer
  unfolding keeps_head
  kept-Fate head rest r k =
      let fresh : stale_alert parse_time head rest r.now ≡ false = ground (arith, k) in
      (
        λ x. absurd (ground (arith, (stale_alert_iff parse_time head rest r.now).1 x, fresh)),
        deferred-IsPutOff r.answer (ground (arith, k)),
      )
