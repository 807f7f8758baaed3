-- ===== src/Cloud/Calls.antt =====
-- internal/agent/cloud/cloud.go: what each call of the control plane makes of the answer. A body is
-- what its JSON decodes to.
use poolpilot_relay.Prelude.{
  Bool, Option, String, eqb, false, if◌then◌else◌, inl, inr, leb, ltb, none, not, some, true, ℕ,
  ◌&&◌, ◌==◌, ◌||◌, ◌⊎◌,
}
use poolpilot_relay.Wire.Status.{
  RelayStatusResponse, relay_reason_free, relay_reason_household_deleted, relay_reason_lapsed,
  relay_reason_revoked, relay_state_active, relay_state_deleted, relay_state_suspended,
}

pub data CloudError : Type 0 where
  err_unavailable err_rejected err_quota_exceeded err_subscription_inactive : CloudError
  err_voucher_cap_reached err_household_device_cap err_unknown_token err_not_supported : CloudError

-- `errors.Is(err, ErrRejected)`.
unfoldable pub is_rejected : CloudError → Bool
is_rejected err_rejected = true
is_rejected e = false

-- What `doJSONErrCode` comes back with: an error (no connection, or a body that does not decode),
-- or a status, the error code of the body, and the body.
pub data CloudAnswer {ℓ} (A : Type ℓ) : Type ℓ where
  no_answer : CloudAnswer A
  status : ℕ → String → A → CloudAnswer A

unfoldable pub is_2xx : ℕ → Bool
is_2xx n = leb 200 n && ltb n 300

unfoldable pub is_4xx : ℕ → Bool
is_4xx n = leb 400 n && ltb n 500

abbrev pub err_too_many_active_bearers : String
err_too_many_active_bearers = "too many active bearers"

-- The last two cases of a switch on the status.
unfoldable pub by_class : ℕ → CloudError
unfolding is_4xx
by_class n = if is_4xx n then err_rejected else err_unavailable

module _ {ℓ} {A : Type ℓ} where
  -- `Redeem`.
  unfoldable pub redeem_result : CloudAnswer A → A ⊎ CloudError
  unfolding by_class
  redeem_result no_answer = inr err_unavailable
  redeem_result (status n code body) = if eqb n 200 then inl body else inr (by_class n)

  -- `RegisterController`, by whether the relay is enrolled.
  unfoldable pub register_result : Bool → CloudAnswer A → A ⊎ CloudError
  unfolding by_class
  register_result false reply = inr err_rejected
  register_result true no_answer = inr err_unavailable
  register_result true (status n code body) =
      if eqb n 200
      then inl body
      else if eqb n 429
      then inr err_unavailable
      else if eqb n 409
      then inr err_quota_exceeded
      else if eqb n 403
      then inr err_subscription_inactive
      else inr (by_class n)

  -- `RotateController`.
  unfoldable pub rotate_result : Bool → CloudAnswer A → A ⊎ CloudError
  unfolding by_class
  rotate_result false reply = inr err_rejected
  rotate_result true no_answer = inr err_unavailable
  rotate_result true (status n code body) =
      if eqb n 200
      then inl body
      else if eqb n 429
      then inr err_unavailable
      else if eqb n 403
      then inr err_subscription_inactive
      else inr (by_class n)

  -- `ListControllers`.
  unfoldable pub list_result : Bool → CloudAnswer A → A ⊎ CloudError
  unfolding by_class
  list_result false reply = inr err_rejected
  list_result true no_answer = inr err_unavailable
  list_result true (status n code body) =
      if eqb n 200
      then inl body
      else if eqb n 404 || eqb n 405
      then inr err_not_supported
      else if eqb n 403
      then inr err_subscription_inactive
      else if eqb n 429
      then inr err_unavailable
      else inr (by_class n)

  -- `brokerVoucher`.
  unfoldable pub voucher_result : Bool → CloudAnswer A → A ⊎ CloudError
  unfolding by_class
  voucher_result false reply = inr err_rejected
  voucher_result true no_answer = inr err_unavailable
  voucher_result true (status n code body) =
      if eqb n 200
      then inl body
      else if eqb n 429
      then inr err_unavailable
      else if eqb n 403
      then inr err_rejected
      else if eqb n 409 && (code == err_too_many_active_bearers)
      then inr err_household_device_cap
      else if eqb n 409
      then inr err_voucher_cap_reached
      else inr (by_class n)

  -- `CheckUpdate`.
  unfoldable pub check_update_result : CloudAnswer A → A ⊎ CloudError
  check_update_result no_answer = inr err_unavailable
  check_update_result (status n code body) =
      if eqb n 401
      then inr err_unknown_token
      else if not (eqb n 200)
      then inr err_unavailable
      else inl body

  -- `UpdateController`, where none is success.
  unfoldable pub update_result : Bool → CloudAnswer A → Option CloudError
  unfolding by_class is_2xx
  update_result false reply = some err_rejected
  update_result true no_answer = some err_unavailable
  update_result true (status n code body) =
      if is_2xx n
      then none
      else if eqb n 429
      then some err_unavailable
      else if eqb n 403
      then some err_subscription_inactive
      else some (by_class n)

  -- `RevokeController`, and `Release`, which does not ask whether the relay is enrolled.
  unfoldable pub release_result : CloudAnswer A → Option CloudError
  unfolding by_class is_2xx
  release_result no_answer = some err_unavailable
  release_result (status n code body) = if is_2xx n || eqb n 404 then none else some (by_class n)

  unfoldable pub revoke_result : Bool → CloudAnswer A → Option CloudError
  unfolding release_result
  revoke_result false reply = some err_rejected
  revoke_result true reply = release_result reply

  -- `revokePush`.
  unfoldable pub revoke_push_result : CloudAnswer A → Option CloudError
  unfolding by_class is_2xx
  revoke_push_result no_answer = some err_unavailable
  revoke_push_result (status n code body) =
      if is_2xx n
      then none
      else if eqb n 403
      then some err_subscription_inactive
      else if eqb n 401 || eqb n 408 || eqb n 429
      then some err_unavailable
      else some (by_class n)

-- `knownRelayReason`.
unfoldable pub known_relay_reason : String → String
known_relay_reason reason =
    if (reason == relay_reason_lapsed)
      || (reason == relay_reason_free)
      || (reason == relay_reason_revoked)
      || (reason == relay_reason_household_deleted)
    then reason
    else ""

unfoldable pub known_relay_state : String → Bool
known_relay_state s =
    (s == relay_state_active) || (s == relay_state_suspended) || (s == relay_state_deleted)

-- `RelayStatus`, by whether a token is given.
unfoldable pub relay_status_result :
    Bool → CloudAnswer RelayStatusResponse → RelayStatusResponse ⊎ CloudError
unfolding known_relay_reason known_relay_state
relay_status_result false reply = inr err_rejected
relay_status_result true no_answer = inr err_unavailable
relay_status_result true (status n code out) =
    if eqb n 200
    then (if known_relay_state out.state
        then inl (record out { reason = known_relay_reason out.reason })
        else inr err_unavailable)
    else if eqb n 401
    then inr err_unknown_token
    else inr err_unavailable
