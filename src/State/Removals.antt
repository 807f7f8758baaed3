-- ===== src/State/Removals.antt =====
-- internal/agent/state/state.go: the queue of device removals that the cloud must be told of, and
-- the caps on the two queues.
pub mod Queue
use poolpilot_relay.Prelude.{
  List, String, [], any, drop, if◌then◌else◌, leb, length, not, ℕ, ◌++◌, ◌-◌, ◌==◌, ◌∷◌,
}
use poolpilot_relay.Go.Time.{Time, zero_time}
use poolpilot_relay.Prelude.Int.{pos}
use poolpilot_relay.State.Document.{
  PendingDeviceRemoval, State, outbox_limit, pending_removal_limit,
}
use poolpilot_relay.State.Household.{enrolled}
use poolpilot_relay.Wire.Alerts.{AlertRequest}

-- `sha256_hex` is what idgen.HashToken computes with crypto/sha256 and encoding/hex.
module _ (sha256_hex : String → String) where
  unfoldable pub cloud_identity : State → String
  unfolding enrolled
  cloud_identity s = if not (enrolled s) then "" else sha256_hex s.cloud.frpc_token

  unfoldable pub queue_device_removal : State → String → Time → State
  queue_device_removal s device_id now =
      if any (λ p. p.device_id == device_id) s.pending_device_removals then s else record s {
        pending_device_removals =
            s.pending_device_removals
            ++ (record {
              device_id = device_id;
              created_at = now;
              attempts = pos 0;
              next_attempt_at = zero_time;
              cloud_identity = cloud_identity s;
            }
                ∷ []);
      }

-- The newest `limit` entries of a queue that is kept oldest first.
unfoldable pub cap_queue {ℓ} : {A : Type ℓ} → ℕ → List A → List A
cap_queue limit q = if leb (length q) limit then q else drop (length q - limit) q

unfoldable pub cap_outbox : List AlertRequest → List AlertRequest
unfolding cap_queue
cap_outbox q = cap_queue outbox_limit q

unfoldable pub cap_pending_removals : List PendingDeviceRemoval → List PendingDeviceRemoval
unfolding cap_queue
cap_pending_removals q = cap_queue pending_removal_limit q
