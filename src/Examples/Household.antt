-- ===== src/Examples/Household.antt =====
-- The LAN API: pairing, revoking, and the settings of a controller.
use poolpilot_relay.Prelude.{
  List, Option, String, [], arith, contains, eqb, false, filter, if◌then◌else◌, inl, inr, length,
  none, refl, some, true, ℕ, ◌%◌, ◌++◌, ◌+◌, ◌==◌, ◌∷◌, ◌≡◌, ◌≢◌, ◌≤◌, ◌⊎◌,
}
use poolpilot_relay.Alert.Control.{default_ok_tolerance}
use poolpilot_relay.Alert.Rules.{check_band, check_kind, check_rule, check_rules, validate_rules}
use poolpilot_relay.Bands.{is_banded_type}
use poolpilot_relay.Examples.Data.{founder, guest, home, hour, household, ph_rule, pool, spa}
use poolpilot_relay.Go.Float64.{is_nan, rank}
use poolpilot_relay.Go.Int64.{add64, div_trunc, sub64, wrap64}
use poolpilot_relay.Go.Time.{unix}
use poolpilot_relay.LanApi.Auth.{Reply, device_for_bearer, ok}
use poolpilot_relay.LanApi.Controllers.{ensure_ctrl_session_key, keep_secret}
use poolpilot_relay.LanApi.Controllers.SessionKey.{racing_keys_agree}
use poolpilot_relay.LanApi.Devices.{
  delete_closure, delete_device, is_last_active_owner, is_target, removal, removal_reply,
}
use poolpilot_relay.LanApi.Devices.Owners.{delete_device-active}
use poolpilot_relay.LanApi.Devices.Revoked.{delete_device-bearers}
use poolpilot_relay.LanApi.Pairing.{
  BrokerAnswer, active_count, add_device, brokered, device_cap, join_role, pair_recover,
  pair_with_voucher, spend_voucher, verdict, verdict_reply,
}
use poolpilot_relay.LanApi.Pairing.Cap.{pair_with_voucher-WithinCap, with_role}
use poolpilot_relay.LanApi.Pairing.Windows.{
  History, History-RisesFrom, RisesFrom, no_more, recovers,
}
use poolpilot_relay.LanApi.Settings.{
  get_controller_rules, put_controller_rules, with_default_ok_tolerance, with_default_rule,
}
use poolpilot_relay.LanApi.Settings.Rules.{put_controller_rules_lem, rules_round_trip}
use poolpilot_relay.Prelude.Int.{negsuc, pos, ℤ, ◌+ℤ◌, ◌-ℤ◌}
use poolpilot_relay.Recovery.{verify, verify_windows, window_index}
use poolpilot_relay.State.Controllers.{find_controller}
use poolpilot_relay.State.Document.{Device, State, is_active, is_owner, role_member, role_owner}
use poolpilot_relay.Store.{Store, normalize, update}

-- The code of a window, told apart by its parity.
abbrev parity_code : ℤ → Option String
parity_code (pos w) = some (if eqb (w % 2) 0 then "even" else "odd")
parity_code (negsuc w) = none

abbrev tablet : Device
tablet = record founder { id = "d3"; token_sha256 = "cc"; created_at = hour 5 }

abbrev minted : BrokerAnswer
minted = brokered (record { voucher = "v"; role = role_member; expires_at = "" })

recovers_once :
    History parity_code home
      (pos 2980368 ∷ [])
      (pair_recover parity_code household "even" (hour 0) true tablet minted home).0
unfolding verify verify_windows window_index unix div_trunc sub64 add64 wrap64 ◌-ℤ◌ ◌+ℤ◌
    pair_recover pair_with_voucher spend_voucher add_device update normalize verdict verdict_reply
recovers_once =
    recovers household "even" (hour 0) true tablet minted (pos 2980368) refl refl no_more

History-RisesFrom_example : RisesFrom (pos 0) (pos 2980368 ∷ [])
History-RisesFrom_example =
    History-RisesFrom parity_code home
      (pair_recover parity_code household "even" (hour 0) true tablet minted home).0
      (pos 2980368 ∷ []) recovers_once

pair_with_voucher-WithinCap_example :
    let (st', r) = pair_with_voucher household true tablet minted join_role none home in
    (active_count st'.doc ≤ device_cap)
    × (((r ≡ ok)
          × (st'.doc.devices ≡ household.devices ++ (with_role tablet join_role minted ∷ [])))
        ⊎ ((r ≢ ok) × (st'.doc.devices ≡ household.devices)))
pair_with_voucher-WithinCap_example =
    pair_with_voucher-WithinCap household true tablet minted join_role none home (omega arith)

abbrev owners : State
owners = record household {
  devices = record founder { role = role_owner } ∷ record guest { role = role_owner } ∷ [];
}

abbrev owned : Store
owned = record home { doc = owners; disk = some owners }

abbrev hashed : String → String
hashed s = "00"

abbrev digest : String → List ℕ
digest s = []

abbrev unhexed : String → Option (List ℕ)
unhexed s = none

goes_through : (delete_device hashed true "d1" "d2" (hour 9) true owned).1 ≡ ok
unfolding delete_device delete_closure removal update removal_reply is_target is_last_active_owner
    is_owner
goes_through = refl

delete_device-bearers_example :
    let after = (delete_device hashed true "d1" "d2" (hour 9) true owned).0.doc in
    ((token : String) (d : Device)
      → device_for_bearer digest unhexed after token ≡ some d
      → d.id ≢ "d2")
    × ((token : String) (d : Device)
        → device_for_bearer digest unhexed owners token ≡ some d
        → d.id ≢ "d2"
        → device_for_bearer digest unhexed after token ≡ some d)
    × (after.ctrl_session_secret ≡ "")
unfolding is_target
delete_device-bearers_example =
    delete_device-bearers digest unhexed hashed true "d1" "d2" (hour 9) true owned refl
      (omega arith) goes_through

delete_device-active_example :
    let after = (delete_device hashed true "d1" "d2" (hour 9) true owned).0.doc in
    (length (filter is_active after.devices) + 1 ≡ length (filter is_active owners.devices))
    × (true ≡ true → 1 ≤ length (filter is_active after.devices))
delete_device-active_example =
    delete_device-active hashed true "d1" "d2" (hour 9) true owned refl goes_through

put_controller_rules_lem_example :
    let (st', r) = put_controller_rules household true "g1" (ph_rule ∷ []) home in
    (r ≡ inr (with_default_ok_tolerance (ph_rule ∷ []))
      → (get_controller_rules "g1" st'.doc ≡ some (with_default_ok_tolerance (ph_rule ∷ [])))
        × (validate_rules (ph_rule ∷ []) ≡ none)
        × ((other : String)
            → other ≢ "g1"
            → find_controller other st'.doc.controllers
              ≡ find_controller other household.controllers))
    × ((e : Reply) → r ≡ inl e → st' ≡ home)
unfolding find_controller
put_controller_rules_lem_example =
    put_controller_rules_lem household true "g1" (ph_rule ∷ [])
      (with_default_ok_tolerance (ph_rule ∷ [])) home pool refl

abbrev with_rule : State
with_rule = record household { controllers = record pool { alert_rules = ph_rule ∷ [] } ∷ spa ∷ [] }

abbrev ruled : Store
ruled = record home { doc = with_rule; disk = some with_rule }

shown_rules : get_controller_rules "g1" with_rule ≡ some (with_default_ok_tolerance (ph_rule ∷ []))
unfolding get_controller_rules find_controller
shown_rules = refl

put_back :
    (put_controller_rules with_rule true "g1" (with_default_ok_tolerance (ph_rule ∷ [])) ruled).1
    ≡ inr (with_default_ok_tolerance (with_default_ok_tolerance (ph_rule ∷ [])))
unfolding put_controller_rules find_controller update validate_rules with_default_ok_tolerance
    default_ok_tolerance with_default_rule check_rules check_rule contains check_kind check_band
    is_banded_type is_nan rank
put_back = refl

rules_round_trip_example :
    let shown = with_default_ok_tolerance (ph_rule ∷ []) in
    let (st', r) = put_controller_rules with_rule true "g1" shown ruled in
    (with_default_ok_tolerance shown ≡ shown) × (get_controller_rules "g1" st'.doc ≡ some shown)
rules_round_trip_example =
    rules_round_trip with_rule true "g1" (with_default_ok_tolerance (ph_rule ∷ []))
      (with_default_ok_tolerance (with_default_ok_tolerance (ph_rule ∷ []))) ruled shown_rules
      put_back

abbrev keyless : State
keyless = record household { ctrl_session_secret = "" }

abbrev keyless_home : Store
keyless_home = record home { doc = keyless; disk = some keyless }

abbrev first_key : String
first_key = "k1"

abbrev raced : Store → Store
raced st = (ensure_ctrl_session_key keyless true "k2" st).0

-- Both requests read the document before either has stored a key.
racing_keys_agree_example :
    let st' = (ensure_ctrl_session_key keyless true first_key keyless_home).0 in
    (first_key ≡ first_key)
    × ((raced st').doc.ctrl_session_secret ≡ first_key)
    × ((first_key == "") ≡ false)
unfolding ensure_ctrl_session_key keep_secret update normalize
racing_keys_agree_example =
    let st' = (ensure_ctrl_session_key keyless true first_key keyless_home).0 in
    racing_keys_agree keyless keyless true true first_key "k2" keyless_home st' st' (raced st')
      first_key first_key refl refl (inl refl) refl refl (inl refl) refl
