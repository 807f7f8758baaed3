-- ===== src/Examples/Delivering.antt =====
-- The queue of alerts and its delivery.
use poolpilot_relay.Prelude.{
  List, Option, String, [], arith, min, none, refl, some, true, ◌*◌, ◌∷◌, ◌≡◌, ◌≢◌, ◌⊎◌,
}
use poolpilot_relay.Bands.{severity_bad, type_ph}
use poolpilot_relay.Cloud.Calls.{
  CloudAnswer, err_unavailable, is_rejected, no_answer, revoke_push_result, status,
}
use poolpilot_relay.Cloud.Outbox.{
  Round, drain, drain_round, http_status, is_deferred, keeps_head, last_queued_entry_for_rule,
  pop_front, pop_outbox_head, stale_alert,
}
use poolpilot_relay.Cloud.Outbox.Drained.{Delivered, drain-Delivered}
use poolpilot_relay.Cloud.Removals.Backoff.{retry_delay_lem, twice}
use poolpilot_relay.Cloud.Removals.Pass.{retry_delay}
use poolpilot_relay.Examples.Data.{home, hour, household, ph_8}
use poolpilot_relay.Go.Time.{Time, nanoseconds, sub_time}
use poolpilot_relay.Prelude.Int.{pos}
use poolpilot_relay.State.Household.{tunnel_parked}
use poolpilot_relay.State.Removals.{cap_outbox, cap_pending_removals, cap_queue}
use poolpilot_relay.Store.{Store, normalize, update}
use poolpilot_relay.Wire.Alerts.{
  AlertRequest, kind_measurement_band, transition_enter, transition_recover,
}

abbrev alert_of : String → String → AlertRequest
alert_of rule transition = record {
  controller_guid = "g1";
  rule_id = rule;
  kind = kind_measurement_band;
  measurement_type = type_ph;
  severity = severity_bad;
  transition = transition;
  value = ph_8;
  unit = "";
  label = "pH";
  pool_label = "Pool";
  occurred_at = "2026-09-01T00:00:00Z";
}

abbrev queue : List AlertRequest
queue = alert_of "ph" transition_enter ∷ alert_of "orp" transition_recover ∷ []

abbrev waiting : Store
waiting = record home { doc = record household { outbox = queue } }

abbrev midnight : String → Option Time
midnight s = some (hour 0)

-- Three hours later; the cloud takes everything.
abbrev taken : Round
taken = record { now = hour 3; answer = http_status 200; persists = true; meanwhile = λ st. st }

abbrev three_rounds : List Round
three_rounds = taken ∷ taken ∷ taken ∷ []

emptied :
    drain midnight three_rounds waiting
    ≡ some (
      record waiting {
        doc = record household { outbox = [] };
        disk = some (record household { outbox = [] });
      },
      none,
    )
unfolding drain drain_round keeps_head stale_alert is_deferred pop_outbox_head pop_front update
    normalize cap_outbox cap_pending_removals cap_queue sub_time last_queued_entry_for_rule
    tunnel_parked
emptied = refl

drain-Delivered_example :
    Delivered midnight three_rounds queue
      (record waiting {
        doc = record household { outbox = [] };
        disk = some (record household { outbox = [] });
      })
      none
drain-Delivered_example =
    drain-Delivered midnight three_rounds waiting
      (record waiting {
        doc = record household { outbox = [] };
        disk = some (record household { outbox = [] });
      })
      none (λ st. refl, (λ st. refl, (λ st. refl, tt))) (omega arith) emptied

-- The fourth report in a row that the cloud does not answer.
retry_delay_lem_example :
    (((code : String) × (◌≡◌ {A = CloudAnswer {0} Unit} no_answer (status 403 code tt)))
      × (retry_delay (pos 3) err_unavailable ≡ 6 * 3600 * nanoseconds))
    ⊎ (((code : String) → ◌≢◌ {A = CloudAnswer {0} Unit} no_answer (status 403 code tt))
        × (retry_delay (pos 3) err_unavailable
            ≡ min (twice 3 (60 * nanoseconds)) (3600 * nanoseconds)))
unfolding revoke_push_result is_rejected
retry_delay_lem_example = retry_delay_lem no_answer err_unavailable 3 (omega arith) refl refl
