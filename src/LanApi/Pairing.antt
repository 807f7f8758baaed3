-- ===== src/LanApi/Pairing.antt =====
-- internal/agent/lanapi/lanapi.go: the pairing ceremony and its three flows.
pub mod Cap
pub mod Windows
use poolpilot_relay.Prelude.{
  Bool, Option, String, [], eqb, filter, if◌then◌else◌, is_some, leb, length, none, not, some, ℕ,
  ◌++◌, ◌+◌, ◌==◌, ◌∷◌,
}
use poolpilot_relay.Go.Int64.{add64}
use poolpilot_relay.Go.Time.{Time}
use poolpilot_relay.LanApi.Auth.{Reply, ok, refused}
use poolpilot_relay.Prelude.Int.{leb_ℤ, ltb_ℤ, pos, ℤ}
use poolpilot_relay.Recovery.{verify}
use poolpilot_relay.State.Document.{
  Device, Frps, State, is_active, no_cloud, role_member, role_owner,
}
use poolpilot_relay.State.Household.{paired}
use poolpilot_relay.Store.{Store, update}

abbrev pub device_cap : ℕ
device_cap = 11

-- The codes that a request carries.
pub record PairRequest : Type 0 where
  pub enrollment_code : String
  pub invite_code : String
  pub recovery_code : String
  pub device_name : String

pub data Flow : Type 0 where
  bad_json flow_recover flow_join already_paired flow_first : Flow

-- The count of the codes that are not empty.
unfoldable pub codes_given : PairRequest → ℕ
codes_given req =
    (if req.enrollment_code == "" then 0 else 1)
    + (if req.invite_code == "" then 0 else 1)
    + (if req.recovery_code == "" then 0 else 1)

-- `pair`, for the snapshot `s`.
unfoldable pub pair_flow : State → PairRequest → Flow
unfolding codes_given
pair_flow s req =
    if not (eqb (codes_given req) 1)
    then bad_json
    else if not (req.recovery_code == "")
    then flow_recover
    else if not (req.invite_code == "")
    then flow_join
    else if paired s
    then already_paired
    else flow_first

pub record Voucher : Type 0 where
  pub voucher : String
  pub role : String
  pub expires_at : String

-- What the broker at the cloud comes back with.
pub data BrokerAnswer : Type 0 where
  household_cap_reached voucher_cap_reached code_refused broker_failed : BrokerAnswer
  brokered : Voucher → BrokerAnswer

unfoldable pub join_role : Voucher → String
join_role v = if v.role == role_owner then role_owner else role_member

abbrev pub recovery_role : Voucher → String
recovery_role v = role_owner

abbrev pub active_count : State → ℕ
active_count s = length (filter is_active s.devices)

-- Why the closure of `pairWithVoucher` does not add the device, or that it does.
pub data Verdict : Type 0 where
  over_cap window_spent admitted : Verdict

-- The two checks at the start of the closure; `consumed` is the recovery window that is consumed.
unfoldable pub verdict : Option ℤ → State → Verdict
verdict consumed s = if leb device_cap (active_count s) then over_cap else elim consumed [
  | none ↦ admitted
  | some w ↦ if leb_ℤ w s.recovery_window_used then window_spent else admitted
]

abbrev pub max_ℤ : ℤ → ℤ → ℤ
max_ℤ a b = if ltb_ℤ a b then b else a

unfoldable pub mark_used : Option ℤ → ℤ → ℤ
mark_used none used = used
mark_used (some w) used = max_ℤ used w

-- The closure.
unfoldable pub admit : Device → Option ℤ → State → State
admit dev consumed s = elim (verdict consumed s) [
  | over_cap ↦ s
  | window_spent ↦ s
  | admitted ↦ record s {
    devices = s.devices ++ (dev ∷ []);
    recovery_window_used = mark_used consumed s.recovery_window_used;
  }
]

unfoldable pub verdict_reply : Verdict → Reply
verdict_reply over_cap = refused 409 "device_quota"
verdict_reply window_spent = refused 410 "code_rejected"
verdict_reply admitted = ok

-- The end of `pairWithVoucher`: the update, and the answer. `dev` has its role.
unfoldable pub add_device : Bool → Device → Option ℤ → Store → Store × Reply
add_device persists dev consumed st =
    let (st', e) = update persists (admit dev consumed) st in
    (
      st',
      elim e [
        | some _ ↦ refused 500 "persist_failed"
        | none ↦ verdict_reply (verdict consumed st.doc)
      ],
    )

-- What `pairWithVoucher` makes of the broker's answer; `dev` is the device that was minted, without
-- its role.
unfoldable pub spend_voucher :
    Bool → Device → BrokerAnswer → (Voucher → String) → Option ℤ → Store → Store × Reply
spend_voucher persists dev household_cap_reached role_for consumed st =
    (st, refused 409 "household_device_quota")
spend_voucher persists dev voucher_cap_reached role_for consumed st =
    (st, refused 409 "voucher_quota")
spend_voucher persists dev code_refused role_for consumed st = (st, refused 410 "code_rejected")
spend_voucher persists dev broker_failed role_for consumed st =
    (st, refused 502 "cloud_unreachable")
spend_voucher persists dev (brokered v) role_for consumed st =
    add_device persists (record dev { role = role_for v }) consumed st

-- `pairWithVoucher` for the snapshot `s`.
unfoldable pub pair_with_voucher :
    State → Bool → Device → BrokerAnswer → (Voucher → String) → Option ℤ → Store → Store × Reply
pair_with_voucher s persists dev answer role_for consumed st =
    if leb device_cap (active_count s)
    then (st, refused 409 "device_quota")
    else spend_voucher persists dev answer role_for consumed st

unfoldable pub pair_join : State → Bool → Device → BrokerAnswer → Store → Store × Reply
pair_join s persists dev answer st =
    if not (paired s)
    then (st, refused 409 "not_paired")
    else pair_with_voucher s persists dev answer join_role none st

-- `pairRecover`; `code` is the recovery code of a window for the relay's key and agent id, and
-- `now` the time of the request.
unfoldable pub pair_recover :
    (ℤ → Option String)
    → State
    → String
    → Time
    → Bool
    → Device
    → BrokerAnswer
    → Store
    → Store × Reply
pair_recover code s presented now persists dev answer st =
    elim (verify code presented now (add64 s.recovery_window_used (pos 1))) [
      | none ↦ (st, refused 410 "code_rejected")
      | some w ↦ pair_with_voucher s persists dev answer recovery_role (some w) st
    ]

-- What redeeming an enrollment code comes back with.
pub data RedeemAnswer : Type 0 where
  redeem_refused redeem_failed : RedeemAnswer
  redeemed : String → Frps → RedeemAnswer

-- The closure of `pairFirst`.
unfoldable pub found_household : String → String → Frps → Device → State → State
found_household base_url token frps dev s = record s {
  devices = s.devices ++ (dev ∷ []);
  cloud = record no_cloud { base_url = base_url; frpc_token = token; frps = frps };
  pending_device_removals = [];
}

-- `pairFirst`, after the flush of the old identity's removals, which the store `st` has seen.
unfoldable pub pair_first : String → Bool → Device → RedeemAnswer → Store → Store × Reply
pair_first base_url persists dev answer st = elim answer [
  | redeem_refused ↦ (st, refused 410 "code_rejected")
  | redeem_failed ↦ (st, refused 502 "cloud_unreachable")
  | redeemed token frps ↦
      let first_owner = record dev { role = role_owner } in
      let (st', e) = update persists (found_household base_url token frps first_owner) st in
      (st', (if is_some e then refused 500 "persist_failed" else ok))
]
