-- ===== src/Update/Agent.antt =====
-- internal/agent/updater/updater.go and `Apply` of stage.go: the agent's choice of a release.
pub mod Choice
pub mod Slot
use poolpilot_relay.Prelude.{
  Bool, Option, String, eqb, false, if◌then◌else◌, is_some, leb, ltb, none, not, some, suc, zero, ℕ,
  ◌%◌, ◌&&◌, ◌*◌, ◌+◌, ◌-◌, ◌==◌, ◌||◌,
}
use poolpilot_relay.Cloud.Calls.{status}
use poolpilot_relay.Go.Text.{codes}
use poolpilot_relay.Go.Time.{Duration, Time, from_seconds, nanoseconds}
use poolpilot_relay.Prelude.Int.{leb_ℤ, ltb_ℤ, pos, ℤ}
use poolpilot_relay.State.Document.{State}
use poolpilot_relay.State.Household.{auto_update, enrolled}
use poolpilot_relay.Store.{Store, update}
use poolpilot_relay.Update.Version.{newer}
use poolpilot_relay.Wire.Updates.{UpdateAdvisory, UpdateResult}

abbrev pub hour_ns : ℕ
hour_ns = 3600 * nanoseconds

abbrev pub default_recheck : Duration
default_recheck = pos (6 * hour_ns)

abbrev pub min_recheck : Duration
min_recheck = pos hour_ns

abbrev pub max_recheck : Duration
max_recheck = pos (24 * hour_ns)

unfoldable pub clamp_recheck : ℤ → Duration
clamp_recheck seconds =
    let d = from_seconds seconds in
    if leb_ℤ seconds (pos 0)
    then default_recheck
    else if ltb_ℤ d min_recheck
    then min_recheck
    else if ltb_ℤ max_recheck d
    then max_recheck
    else d

-- The updater's own fields: the running version, whether it is off, whether a download runs, and
-- the pause until the next check.
pub record Updater : Type 0 where
  pub version : String
  pub disabled : Bool
  pub staging : Bool
  pub recheck_after : Duration

-- `isCandidate`, for the document `s`.
unfoldable pub is_candidate : Updater → State → String → Bool
is_candidate u s tag = newer (codes tag) (codes u.version) && not (tag == s.update.bad_version)

-- What a check-in comes back with.
pub data CheckAnswer : Type 0 where
  token_unknown check_failed : CheckAnswer
  checked : String → ℤ → Option UpdateAdvisory → CheckAnswer

abbrev pub available_of : Updater → State → String → String
available_of u s target = if not (target == "") && is_candidate u s target then target else ""

-- The closure of `check`.
abbrev pub clears_block : String → String → Bool
clears_block available bad =
    not (available == "") && not (bad == "") && newer (codes available) (codes bad)

unfoldable pub note_check : String → Option UpdateAdvisory → String → State → State
note_check available advisory now s = record s {
  update = record s.update {
    last_available = available;
    last_advisory = advisory;
    last_check = now;
    bad_version =
        (if clears_block available s.update.bad_version then "" else s.update.bad_version);
  };
}

-- `check` with the snapshot `s`; `seen` is the document that `isCandidate` reads. The result says
-- whether the check-in failed; `probes` whether the lifecycle watcher is told.
pub record Checked : Type 0 where
  pub updater : Updater
  pub store : Store
  pub failed : Bool
  pub probes : Bool

unfoldable pub check : State → State → CheckAnswer → String → Bool → Updater → Store → Checked
check s seen token_unknown now persists u st = record {
  updater = u;
  store = st;
  failed = enrolled s;
  probes = enrolled s;
}
check s seen check_failed now persists u st = record {
  updater = u;
  store = st;
  failed = enrolled s;
  probes = false;
}
check s seen (checked target recheck advisory) now persists u st =
    let noted = note_check (available_of u seen target) advisory now in
    if not (enrolled s)
    then record { updater = u; store = st; failed = false; probes = false }
    else record {
      updater = record u { recheck_after = clamp_recheck recheck };
      store = (update persists noted st).0;
      failed = false;
      probes = false;
    }

-- `Apply`, up to the background stage: whether it starts, and with which version.
pub data Applied : Type 0 where
  no_update in_progress : Applied
  starts_stage : String → Applied

unfoldable pub apply_update : Bool → State → Updater → Applied
apply_update request_exists s u =
    let available = s.update.last_available in
    if u.disabled
    then no_update
    else if (available == "") || not (is_candidate u s available)
    then no_update
    else if u.staging || request_exists
    then in_progress
    else starts_stage available

-- `maybeAutoApply`; `in_window` is whether now is in the device's slot.
unfoldable pub maybe_auto_apply : Bool → Bool → State → Updater → Option Applied
maybe_auto_apply in_window request_exists s u =
    if not (auto_update s) || (s.update.last_available == "")
    then none
    else if not in_window
    then none
    else some (apply_update request_exists s u)

-- The closure of `ingestResult`.
unfoldable pub ingest : UpdateResult → State → State
ingest r s = record s {
  update = record s.update {
    last_result = some r;
    bad_version =
        (if (r.status == "rolled_back") && not (r.to == "") then r.to else s.update.bad_version);
  };
}

-- `ingestResult`: what is left of the result file, and the store.
unfoldable pub ingest_result :
    Bool → Bool → Option UpdateResult → Store → Option UpdateResult × Store
ingest_result persists removes none st = (none, st)
ingest_result persists removes (some r) st =
    let (st', e) = update persists (ingest r) st in
    (if is_some e || not removes then some r else none, st')

-- The version that `Status` offers.
unfoldable pub offered : State → String
offered s = if s.update.last_available == s.update.bad_version then "" else s.update.last_available

-- The closures of `SetAuto` and `recordStageFailure`.
unfoldable pub set_auto : Bool → State → State
set_auto auto s = record s { update = record s.update { auto_disabled = not auto } }

unfoldable pub stage_failed : String → String → State → State
stage_failed version now s = record s {
  update = record s.update {
    last_result = some (record {
      status = "rejected";
      from = "";
      to = version;
      error = "stage_failed";
      finished_at = now;
    });
  };
}

-- `windowOffset`; `sum32` is FNV-1a of the agent's id.
unfoldable pub window_offset : ℕ → ℕ → ℕ
window_offset sum32 span_seconds =
    if eqb span_seconds 0 then 0 else (sum32 % span_seconds) * nanoseconds

-- `slotStart`; `three` is three o'clock of now's calendar day.
unfoldable pub slot_start : ℕ → Time → Time
unfolding window_offset
slot_start sum32 three = three + window_offset sum32 3600

unfoldable pub in_window : ℕ → Time → Time → Bool
unfolding slot_start
in_window sum32 three now =
    let start = slot_start sum32 three in leb start now && ltb now (start + hour_ns)

-- The loop of `untilNextWindow`, on fuel.
unfoldable pub next_slot : ℕ → Time → Time → Option Time
next_slot zero slot now = none
next_slot (suc fuel) slot now =
    let rest = next_slot fuel (slot + 24 * hour_ns) now in if ltb now slot then some slot else rest

-- `untilNextWindow`, of an agent with an id.
unfoldable pub wait_for_slot : ℕ → ℕ → Time → Time → Option ℕ
unfolding slot_start next_slot
wait_for_slot fuel sum32 three now = elim (next_slot fuel (slot_start sum32 three) now) [
  | none ↦ none
  | some slot ↦ some (slot - now)
]

-- `untilNextWindow`; `hash` is what FNV-1a makes of an id.
unfoldable pub until_next_window : (String → ℕ) → String → ℕ → Time → Time → Option ℕ
unfolding wait_for_slot
until_next_window hash agent_id fuel three now =
    let wait = wait_for_slot fuel (hash agent_id) three now in
    if agent_id == "" then some hour_ns else wait
