-- ===== src/Wire/Status.antt =====
-- wire/wire.go: the answer of POST /relay/status.
use poolpilot_relay.Prelude.{String}

abbrev pub relay_state_active : String
relay_state_active = "active"

abbrev pub relay_state_suspended : String
relay_state_suspended = "suspended"

abbrev pub relay_state_deleted : String
relay_state_deleted = "deleted"

pub record RelayStatusResponse : Type 0 where
  pub state : String
  pub reason : String

abbrev pub relay_reason_revoked : String
relay_reason_revoked = "revoked"

abbrev pub relay_reason_lapsed : String
relay_reason_lapsed = "lapsed"

abbrev pub relay_reason_free : String
relay_reason_free = "free"

abbrev pub relay_reason_household_deleted : String
relay_reason_household_deleted = "household_deleted"
