-- ===== src/State/Household.antt =====
-- internal/agent/state/state.go: who is paired and enrolled, and what a household reset forgets.
use poolpilot_relay.Prelude.{Bool, List, [], any, filter, not, ◌&&◌, ◌==◌, ◌||◌}
use poolpilot_relay.State.Document.{
  Device, State, is_active, lifecycle_suspended, lifecycle_unknown, no_cloud,
}

unfoldable pub paired : State → Bool
paired s = any is_active s.devices

unfoldable pub active_devices : State → List Device
active_devices s = filter is_active s.devices

unfoldable pub enrolled : State → Bool
enrolled s = not (s.cloud.frpc_token == "")

unfoldable pub tunnel_parked : State → Bool
unfolding enrolled
tunnel_parked s =
    enrolled s
    && ((s.cloud.lifecycle == lifecycle_suspended) || (s.cloud.lifecycle == lifecycle_unknown))

unfoldable pub reset_household : State → State
reset_household s = record s {
  cloud = no_cloud;
  devices = [];
  controllers = [];
  outbox = [];
  pending_device_removals = [];
  ctrl_session_secret = "";
}

unfoldable pub auto_update : State → Bool
auto_update s = not s.update.auto_disabled
