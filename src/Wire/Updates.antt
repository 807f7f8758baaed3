-- ===== src/Wire/Updates.antt =====
-- wire/wire.go: what the self-update reports and remembers.
use poolpilot_relay.Prelude.{String}

pub record UpdateAdvisory : Type 0 where
  pub severity : String
  pub message : String
  pub fixed_in : String

pub record UpdateResult : Type 0 where
  pub status : String
  pub from : String
  pub to : String
  pub error : String
  pub finished_at : String
