-- ===== src/LanApi/Controllers.antt =====
-- internal/agent/lanapi/lanapi.go: deleting and rotating a controller, the key of the controller
-- sessions, and the two resets. A snapshot is the document that the handler read; `meanwhile` is what
-- others do to the store while a request to the cloud is out or the store's lock is not held.
-- The cloud's notice of a deletion, an orphan or a released slot is best effort and has no effect on
-- the store or the reply; it, the tunnel and mDNS are left out.
pub mod SessionKey
use Prim.Native.String.{◌++◌ as join}
use poolpilot_relay.Prelude.{
  Bool, Option, String, any, false, if◌then◌else◌, inl, inr, is_some, none, not, some, true, ◌==◌,
  ◌||◌, ◌⊎◌,
}
use poolpilot_relay.Cloud.Calls.{
  CloudAnswer, CloudError, err_rejected, err_subscription_inactive, rotate_result,
}
use poolpilot_relay.LanApi.Auth.{Reply, ok, refused}
use poolpilot_relay.State.Controllers.{find_controller, modify_controller, remove_controller}
use poolpilot_relay.State.Document.{Controller, State}
use poolpilot_relay.State.Household.{active_devices, enrolled}
use poolpilot_relay.Store.{Store, StoreError, drop_household_if, update, update_if_token, wipe}

abbrev pub api_subdomain_suffix : String
api_subdomain_suffix = "-api"

-- `deriveRemoteAPIURL`.
unfoldable pub derive_remote_api_url : String → String → String
derive_remote_api_url guid subdomain_host =
    if (guid == "") || (subdomain_host == "")
    then ""
    else join "https://" (join guid (join api_subdomain_suffix (join "." subdomain_host)))

-- DELETE /v1/controllers/{guid}.
unfoldable pub delete_controller : String → State → Bool → Store → Store × Reply
delete_controller guid snapshot persists st =
    let (st', e) =
      update persists (λ s. record s { controllers = (remove_controller guid s.controllers).0 })
        st in
    if guid == ""
    then (st, refused 400 "bad_id")
    else if not (is_some (find_controller guid snapshot.controllers))
    then (st, refused 404 "unknown_controller")
    else if is_some e
    then (st', refused 500 "persist_failed")
    else (st', ok)

-- The closure of `ensureCtrlSessionKey`.
unfoldable pub keep_secret : String → State → State
keep_secret minted s =
    if s.ctrl_session_secret == "" then record s { ctrl_session_secret = minted } else s

-- `ensureCtrlSessionKey`: the key, `none` where it could not be persisted.
unfoldable pub ensure_ctrl_session_key : State → Bool → String → Store → Store × Option String
unfolding keep_secret
ensure_ctrl_session_key snapshot persists minted st =
    let (st', e) = update persists (keep_secret minted) st in
    if not (snapshot.ctrl_session_secret == "")
    then (st, some snapshot.ctrl_session_secret)
    else if is_some e
    then (st', none)
    else (st', some (keep_secret minted st.doc).ctrl_session_secret)

-- What the cloud answers to a rotation.
pub record Rotated : Type 0 where
  pub guid : String
  pub remote_url : String
  pub remote_api_url : String
  pub remote_e2e_url : String
  pub remote_api_e2e_url : String

unfoldable pub rotated_controller : Rotated → String → Controller → Controller
rotated_controller res remote_api_url c = record c {
  guid = res.guid;
  remote_url = res.remote_url;
  remote_api_url = remote_api_url;
  remote_e2e_url = res.remote_e2e_url;
  remote_api_e2e_url = res.remote_api_e2e_url;
}

unfoldable pub swap_controller : String → Rotated → String → State → State
swap_controller old res remote_api_url s = record s {
  controllers = modify_controller old (rotated_controller res remote_api_url) s.controllers;
}

unfoldable pub rotate_refusal : CloudError → Reply
rotate_refusal err_subscription_inactive = refused 403 "subscription_inactive"
rotate_refusal err_rejected = refused 409 "rotate_rejected"
rotate_refusal e = refused 502 "cloud_unreachable"

abbrev pub rotate_reply : Store × Bool × Option StoreError → Store × Reply
rotate_reply (st, applied, some e) = (st, refused 500 "persist_failed")
rotate_reply (st, true, none) = (st, ok)
rotate_reply (st, false, none) = (st, refused 401 "unauthorized")

-- POST /v1/controllers/{guid}/rotate once the cloud has answered; the store is as others left it.
unfoldable pub swap_rotated :
    String → State → Bool → (Store → Store) → Rotated ⊎ CloudError → Store → Store × Reply
unfolding swap_controller
swap_rotated old snapshot persists meanwhile (inr e) st = (st, rotate_refusal e)
swap_rotated old snapshot persists meanwhile (inl res) st =
    let api =
      if res.remote_api_url == ""
      then derive_remote_api_url res.guid st.doc.cloud.frps.subdomain_host
      else res.remote_api_url in
    rotate_reply (
      update_if_token snapshot.cloud.frpc_token persists (swap_controller old res api) meanwhile st)

unfoldable pub rotate_controller :
    String
    → State
    → CloudAnswer Rotated
    → (Store → Store)
    → Bool
    → (Store → Store)
    → Store
    → Store × Reply
unfolding swap_rotated
rotate_controller old snapshot reply asking persists meanwhile st =
    if old == ""
    then (st, refused 400 "bad_id")
    else if not (is_some (find_controller old snapshot.controllers))
    then (st, refused 404 "unknown_controller")
    else swap_rotated old snapshot persists meanwhile (rotate_result (enrolled st.doc) reply)
        (asking st)

-- POST /v1/factory-reset.
unfoldable pub factory_reset : Bool → Bool → Store → Store × Reply
factory_reset removes sweeps st =
    let (st', e) = wipe removes sweeps st in
    if is_some e then (st', refused 500 "wipe_failed") else (st', ok)

-- Whether the device is an active one of the document.
unfoldable pub still_active : String → State → Bool
still_active id s = any (λ d. d.id == id) (active_devices s)

abbrev pub reset_reply : Store × Bool × Option StoreError → Store × Reply
reset_reply (st, dropped, some e) = (st, refused 500 "persist_failed")
reset_reply (st, true, none) = (st, ok)
reset_reply (st, false, none) = (st, refused 401 "unauthorized")

-- POST /v1/household-reset, for the device that asks.
unfoldable pub household_reset : String → Bool → Bool → (Store → Store) → Store → Store × Reply
unfolding still_active
household_reset id persists sweeps meanwhile st =
    reset_reply (drop_household_if (still_active id) persists sweeps meanwhile st)
