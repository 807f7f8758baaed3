-- ===== src/Examples/Keeping.antt =====
-- The document: recovery windows, roles, migration, controllers and the removal queue.
use poolpilot_relay.Prelude.{
  List, Option, String, [], arith, eqb, false, if◌then◌else◌, none, some, true, ◌%◌, ◌==◌, ◌∷◌,
}
use poolpilot_relay.Examples.Data.{hour, ph_rule, pool, spa}
use poolpilot_relay.Prelude.Int.{negsuc, pos, ℤ}
use poolpilot_relay.State.Controllers.Slots.{DistinctGuids}
use poolpilot_relay.State.Document.{Controller, no_cloud}
use poolpilot_relay.State.Migrate.{StateV1}

-- The code of a window, told apart by its parity.
abbrev code : ℤ → Option String
code (pos w) = some (if eqb (w % 2) 0 then "even" else "odd")
code (negsuc w) = none

abbrev first_schema : StateV1
first_schema = record {
  version = pos 1;
  agent_id = "agent";
  pairing = record { token_sha256 = "aa"; paired_at = hour 0; device_name = "phone" };
  cloud = no_cloud;
  controller = record {
    preset = "";
    lan_address = "http://192.168.1.5";
    username = "admin";
    password = "admin";
    use_https = false;
    label = "Pool";
    guid = "g1";
    remote_url = "";
    remote_api_url = "";
  };
  alert_rules = ph_rule ∷ [];
  alert_state = [];
  last_success_at = hour 1;
  outbox = [];
  tls = record { cert_pem = ""; key_pem = "" };
}

abbrev slots : List Controller
slots = pool ∷ spa ∷ []

abbrev synced : Controller → Controller
synced c = record c { cloud_sync_pending = true }

abbrev registered : Controller → Controller
registered c = record c { guid = "g3"; lan_address = "http://192.168.1.7" }

two_guids : DistinctGuids slots
two_guids = ground arith

abbrev digest : String → String
digest s = if s == "" then "" else "5e88"

abbrev letters : List String
letters = "a" ∷ "b" ∷ "c" ∷ []
