-- ===== src/LanApi/Auth.antt =====
-- internal/agent/lanapi/lanapi.go: who a request comes from, and what it may do.
use poolpilot_relay.Prelude.{
  Bool, List, Option, String, [], eqb, false, if◌then◌else◌, length, none, not, some, true, ℕ, ◌&&◌,
  ◌==◌, ◌||◌, ◌∷◌,
}
use poolpilot_relay.State.Document.{Device, State, is_owner}
use poolpilot_relay.State.Household.{active_devices, paired}

-- What a handler answers: an error body with its status, or a success.
pub data Reply : Type 0 where
  refused : ℕ → String → Reply
  ok : Reply

-- `subtle.ConstantTimeCompare(a, b) == 1`.
abbrev pub same_bytes : List ℕ → List ℕ → Bool
same_bytes [] [] = true
same_bytes [] (b ∷ bs) = false
same_bytes (a ∷ more) [] = false
same_bytes (a ∷ more) (b ∷ bs) = eqb a b && same_bytes more bs

-- `sha256` is crypto/sha256's sum of a text, `unhex` is hex.DecodeString, `none` where it errs.
module _ (sha256 : String → List ℕ) (unhex : String → Option (List ℕ)) where
  -- One round of `deviceForBearer`'s loop.
  unfoldable pub holds_bearer : String → Device → Bool
  holds_bearer token d = elim (unhex d.token_sha256) [
    | none ↦ false
    | some stored ↦ eqb (length stored) 32 && same_bytes (sha256 token) stored
  ]

  -- The loop, over the active devices.
  unfoldable pub find_bearer : String → List Device → Option Device
  find_bearer token [] = none
  find_bearer token (d ∷ ds) =
      let rest = find_bearer token ds in if holds_bearer token d then some d else rest

  unfoldable pub device_for_bearer : State → String → Option Device
  device_for_bearer s token =
      if token == ""
      then none
      else if not (paired s)
      then none
      else find_bearer token (active_devices s)

  -- `authed`: the caller, where the snapshot `s` lets it through. `bearer` is the header's token,
  -- `none` where it has no Bearer prefix; `now_doc` is the document that `deviceForBearer` reads.
  unfoldable pub authed : State → State → Option String → Option Device
  authed s now_doc none = none
  authed s now_doc (some token) =
      if not (paired s) || (token == "") then none else device_for_bearer now_doc token

-- `ownerOnly`: none lets the request through.
unfoldable pub owner_only : Device → Option Reply
owner_only caller = if is_owner caller then none else some (refused 403 "owner_required")

unfoldable pub self_or_owner : Device → String → Option Reply
self_or_owner caller id =
    if (caller.id == "") || (not (id == caller.id) && not (is_owner caller))
    then some (refused 403 "owner_required")
    else none
