-- ===== src/Cloud/Outbox/Stale.antt =====
-- Which queued alerts are dropped for their age.
use poolpilot_relay.Prelude.{
  List, Option, Option-cases, String, any, arith, eq_iff, inl, inr, some, true, ◌==◌, ◌↔◌, ◌≡◌, ◌≢◌,
}
use poolpilot_relay.Cloud.Outbox.{alert_staleness, stale_alert}
use poolpilot_relay.Go.Time.{Time, sub_time}
use poolpilot_relay.Prelude.Int.{◌<ℤ◌}
use poolpilot_relay.Wire.Alerts.{AlertRequest, transition_recover}

module _ (parse_time : String → Option Time) where
  -- An alert is dropped for its age exactly if it has a readable time that is more than an hour
  -- ago, and it is not a recovery that is the last word on its rule in the queue.
  pub stale_alert_iff :
      (head : AlertRequest) (rest : List AlertRequest) (now : Time)
      → (stale_alert parse_time head rest now ≡ true) ↔ (
          (occurred : Time) × (head.occurred_at ≢ "")
          × (parse_time head.occurred_at ≡ some occurred)
          × (alert_staleness <ℤ sub_time now occurred)
          × ((head.transition ≡ transition_recover)
              → any (λ r. r.rule_id == head.rule_id) rest ≡ true))
  unfolding stale_alert
  stale_alert_iff head rest now = elim (Option-cases (parse_time head.occurred_at)) [
    | inl e ↦ (λ h. absurd (ground (arith, h, e)), λ (o, n, p, a, l). absurd (ground (arith, p, e)))
    | inr (t, e) ↦ (
      λ h. (
        t,
        ground (arith, h, e, eq_iff head.occurred_at ""),
        e,
        ground (arith, h, e),
        λ r. ground (arith, h, e, r, eq_iff head.transition transition_recover),
      ),
      λ (o, n, p, a, l). ground (
        arith,
        n,
        p,
        a,
        l,
        e,
        eq_iff head.occurred_at "",
        eq_iff head.transition transition_recover,
      ),
    )
  ]
