-- ===== src/Lifecycle/Steps.antt =====
-- One evaluation of the watcher.
use poolpilot_relay.Prelude.{Bool, false, if◌then◌else◌, not, ◌&&◌, ◌==◌, ◌||◌}
use poolpilot_relay.Go.Time.{before, is_zero, sub_time}
use poolpilot_relay.Lifecycle.Answer.{Env, World, ask, ask_probe, only_watcher}
use poolpilot_relay.Lifecycle.Watcher.{
  Watcher, down_grace, has_tunnel, idle_probe_due, reset_pacing,
}
use poolpilot_relay.Prelude.Int.{ltb_ℤ}
use poolpilot_relay.State.Document.{State}
use poolpilot_relay.State.Household.{enrolled, tunnel_parked}
use poolpilot_relay.Store.{Store}

module _ (env : Env) where
  -- No tunnel to watch: the idle probe.
  unfoldable pub step_idle : State → Watcher → Store → World
  step_idle s w st =
      let (w', due) = idle_probe_due env.idle_first env.now (reset_pacing w) in
      if due then ask_probe env s w' st else only_watcher env w' st

  -- A tunnel that is not connected.
  unfoldable pub step_down : State → Watcher → Store → World
  step_down s w st =
      let down = record w {
        down_since = (if is_zero w.down_since then env.now else w.down_since);
      } in
      if not (ltb_ℤ (sub_time env.now down.down_since) down_grace)
        && not (before env.now down.next_ask)
      then ask env s down st
      else only_watcher env down st

  -- `Step`, once the pending probe is read.
  unfoldable pub step_from : Bool → Bool → State → Watcher → Store → World
  step_from kicked probing s w st =
      if not (enrolled s)
      then only_watcher env (reset_pacing w) st
      else if probing && not (tunnel_parked s)
      then ask_probe env s w st
      else if tunnel_parked s
      then (if kicked || not (before env.now w.next_ask)
          then ask env s w st
          else only_watcher env w st)
      else if not (has_tunnel s)
      then step_idle s w st
      else if env.tunnel_state == "connected"
      then only_watcher env (reset_pacing w) st
      else step_down s w st

  unfoldable pub step : Bool → Watcher → Store → World
  step kicked w st = step_from kicked w.probe_pending st.doc (record w { probe_pending = false }) st
