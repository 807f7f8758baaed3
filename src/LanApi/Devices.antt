-- ===== src/LanApi/Devices.antt =====
-- internal/agent/lanapi/lanapi.go: revoking a device.
pub mod Owners
pub mod Revoked
use poolpilot_relay.Prelude.{
  Bool, List, String, [], any, eqb, false, filter, if◌then◌else◌, length, none, not, some, ℕ, ◌&&◌,
  ◌-◌, ◌==◌, ◌∷◌,
}
use poolpilot_relay.Go.Time.{Time}
use poolpilot_relay.LanApi.Auth.{Reply, ok, refused}
use poolpilot_relay.State.Document.{Device, State, is_active, is_owner}
use poolpilot_relay.State.Household.{enrolled}
use poolpilot_relay.State.Removals.{queue_device_removal}
use poolpilot_relay.Store.{Store, update}

-- The device that `DELETE /v1/devices/{id}` is about: the first active one of that id.
unfoldable pub is_target : String → Device → Bool
is_target id d = (d.id == id) && is_active d

abbrev pub is_active_owner : Device → Bool
is_active_owner d = is_active d && is_owner d

-- Whether `devices[idx]`, the first target, is an active owner and no other device is one: the
-- count of active owners, where the target is one of them.
unfoldable pub is_last_active_owner : String → List Device → Bool
is_last_active_owner id [] = false
is_last_active_owner id (d ∷ ds) =
    let later = is_last_active_owner id ds in
    if is_target id d
    then is_owner d && not (any is_active_owner ds)
    else later && not (is_active_owner d)

-- `doc.Devices[idx].RevokedAt = now`.
unfoldable pub revoke_first : String → Time → List Device → List Device
revoke_first id now [] = []
revoke_first id now (d ∷ ds) =
    let rest = revoke_first id now ds in
    if is_target id d then record d { revoked_at = now } ∷ ds else d ∷ rest

-- What the closure of `deleteDevice` finds.
pub data Removal : Type 0 where
  unknown_device last_device last_owner : Removal
  revoked : ℕ → Removal

unfoldable pub removal : Bool → String → String → State → Removal
removal tunnel caller id s =
    let remaining = length (filter is_active s.devices) - 1 in
    if not (any (is_target id) s.devices)
    then unknown_device
    else if tunnel && eqb remaining 0
    then last_device
    else if not (id == caller) && is_last_active_owner id s.devices
    then last_owner
    else revoked remaining

unfoldable pub removal_reply : Removal → Reply
removal_reply unknown_device = refused 404 "unknown_device"
removal_reply last_device = refused 403 "last_device_lan_only"
removal_reply last_owner = refused 409 "last_owner_device"
removal_reply (revoked remaining) = ok

module _ (sha256_hex : String → String) where
  -- The closure's writes, once it goes through.
  unfoldable pub revoke : String → Time → ℕ → State → State
  revoke id now remaining s =
      let gone = record s { devices = revoke_first id now s.devices } in
      let told = if enrolled gone then queue_device_removal sha256_hex gone id now else gone in
      record told {
        ctrl_session_secret = "";
        controllers = (if eqb remaining 0 then [] else told.controllers);
      }

  unfoldable pub delete_closure : Bool → String → String → Time → State → State
  delete_closure tunnel caller id now s = elim (removal tunnel caller id s) [
    | unknown_device ↦ s
    | last_device ↦ s
    | last_owner ↦ s
    | revoked remaining ↦ revoke id now remaining s
  ]

  -- `deleteDevice`, up to the best-effort calls of the cloud that follow its answer.
  unfoldable pub delete_device : Bool → String → String → Time → Bool → Store → Store × Reply
  delete_device tunnel caller id now persists st =
      let (st', e) = update persists (delete_closure tunnel caller id now) st in
      if id == "" then (st, refused 400 "bad_id") else (
        st',
        elim e [
          | some _ ↦ refused 500 "persist_failed"
          | none ↦ removal_reply (removal tunnel caller id st.doc)
        ],
      )
