-- ===== src/Cloud/Removals.antt =====
-- internal/agent/cloud/cloud.go: the backoff of the queued device removals, when they are held, and
-- how one is settled.
pub mod Backoff
pub mod Pass
pub mod Owed
pub mod Reported
use poolpilot_relay.Prelude.{
  Bool, List, Option, String, [], if◌then◌else◌, ltb, min, none, not, some, suc, zero, ℕ, ◌&&◌, ◌*◌,
  ◌-◌, ◌==◌, ◌||◌, ◌∷◌,
}
use poolpilot_relay.Go.Time.{nanoseconds}
use poolpilot_relay.State.Document.{
  PendingDeviceRemoval, State, lifecycle_suspended, lifecycle_unknown,
}
use poolpilot_relay.Store.{Store, StoreError, update}
use poolpilot_relay.Wire.Status.{relay_reason_revoked}

abbrev pub removal_backoff_base : ℕ
removal_backoff_base = 60 * nanoseconds

abbrev pub removal_backoff_max : ℕ
removal_backoff_max = 3600 * nanoseconds

-- The loop of `removalBackoff`, with the number of rounds that are left.
unfoldable pub doubled : ℕ → ℕ → ℕ
doubled zero d = d
doubled (suc rounds) d =
    let rest = doubled rounds (d * 2) in if ltb d removal_backoff_max then rest else d

unfoldable pub removal_backoff : ℕ → ℕ
unfolding doubled
removal_backoff attempts = min (doubled (attempts - 1) removal_backoff_base) removal_backoff_max

unfoldable pub removals_held : State → Bool
removals_held s =
    (s.cloud.lifecycle == lifecycle_unknown)
    || ((s.cloud.lifecycle == lifecycle_suspended)
        && (s.cloud.lifecycle_reason == relay_reason_revoked))

-- The closure of `settleRemoval`: the first entry of the device is removed, or changed where there
-- is a retry.
unfoldable pub settle_first :
    String
    → Option (PendingDeviceRemoval → PendingDeviceRemoval)
    → List PendingDeviceRemoval
    → List PendingDeviceRemoval
settle_first id retry [] = []
settle_first id retry (p ∷ ps) =
    let rest = settle_first id retry ps in
    if not (p.device_id == id) then p ∷ rest else elim retry [ none ↦ ps | some f ↦ f p ∷ ps ]

unfoldable pub settle_removal :
    String
    → Option (PendingDeviceRemoval → PendingDeviceRemoval)
    → Bool
    → Store
    → Store × Option StoreError
unfolding settle_first
settle_removal id retry persists st =
    update persists
      (λ s. record s { pending_device_removals = settle_first id retry s.pending_device_removals })
      st
