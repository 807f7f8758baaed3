-- ===== src/State/Roles.antt =====
-- internal/agent/state/roles.go: the roles of devices that were paired before roles were stored.
pub mod Inferred
use poolpilot_relay.Prelude.{
  Bool, List, [], any, false, if◌then◌else◌, not, ◌&&◌, ◌*◌, ◌++◌, ◌==◌, ◌||◌, ◌∷◌,
}
use poolpilot_relay.Go.Time.{Duration, Time, add_time, after, before, is_zero, zero_time}
use poolpilot_relay.Prelude.Int.{ltb_ℤ, pos, ℤ}
use poolpilot_relay.Recovery.{window_end}
use poolpilot_relay.State.Document.{Device, State, role_member, role_owner}

-- 2026-08-14T22:07:46Z.
abbrev pub roles_era : Time
roles_era = 63922342066 * 1000000000

-- recovery.Window + 5 minutes.
abbrev pub recovery_grace : Duration
recovery_grace = pos 900000000000

-- The loop over the earlier devices.
unfoldable pub active_when : Time → Device → Bool
active_when at e = is_zero e.revoked_at || after e.revoked_at at

unfoldable pub provably_joined : List Device → Device → Time → Bool
unfolding active_when
provably_joined earlier d last_recovery_end =
    if is_zero d.created_at || before d.created_at roles_era
    then false
    else if not (is_zero last_recovery_end) && not (after d.created_at last_recovery_end)
    then false
    else any (active_when d.created_at) earlier

unfoldable pub last_recovery_end : ℤ → Time
last_recovery_end used =
    if ltb_ℤ (pos 0) used then add_time (window_end used) recovery_grace else zero_time

-- The body of the loop for one device, and whether it changed.
unfoldable pub infer_role : List Device → Time → Device → Device
infer_role earlier since d =
    if not (d.role == "") || not (is_zero d.revoked_at)
    then d
    else record d { role = (if provably_joined earlier d since then role_member else role_owner) }

-- `d.Role != "" || !d.RevokedAt.IsZero()`, the other way round: the devices that the loop changes.
abbrev pub lacks_role : Device → Bool
lacks_role d = (d.role == "") && is_zero d.revoked_at

-- The loop, with the devices that it has passed.
unfoldable pub infer_devices : List Device → Time → List Device → List Device × Bool
infer_devices earlier since [] = ([], false)
infer_devices earlier since (d ∷ ds) =
    let d' = infer_role earlier since d in
    let rest = infer_devices (earlier ++ (d' ∷ [])) since ds in
    (d' ∷ rest.0, lacks_role d || rest.1)

unfoldable pub infer_legacy_roles : State → State × Bool
infer_legacy_roles s =
    let inferred = infer_devices [] (last_recovery_end s.recovery_window_used) s.devices in
    (record s { devices = inferred.0 }, inferred.1)
