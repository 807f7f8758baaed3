-- ===== src/Update/Helper.antt =====
-- internal/update/helper/helper.go: the privileged side. Each step that can fail in the file system
-- or at the service manager answers by a field of `Surroundings`.
use poolpilot_relay.Prelude.{
  Bool, List, Option, [], false, if◌then◌else◌, ltb, none, not, some, take, true, ℕ, ◌&&◌, ◌||◌,
  ◌∷◌,
}
use poolpilot_relay.Go.Text.{Text, codes, cut_prefix, is_empty, same_text, split_on, trim_space}
use poolpilot_relay.Go.Time.{Time}
use poolpilot_relay.Update.Assets.{Request, Result, agent_asset, helper_asset, sig_name, sums_name}
use poolpilot_relay.Update.Files.{Files, Record, no_request, recorded}
use poolpilot_relay.Update.Version.{valid_tag}

pub record Config : Type 0 where
  pub pub_key : Text
  pub arch : Text

-- One look of the health watch: whether the unit has failed, the version in `health.json`, and the
-- time after it.
pub record Look : Type 0 where
  pub failed : Bool
  pub marker : Option Text
  pub now : Time

-- How the os.WriteFile of `installed-version` goes: it is whole, or it fails without opening the file
-- or, with the file truncated, after some bytes.
pub data RecordWrite : Type 0 where
  whole not_opened : RecordWrite
  cut_short : ℕ → RecordWrite

-- What is there afterwards.
unfoldable pub record_after : RecordWrite → Text → Record → Record
record_after whole line old = recorded line
record_after not_opened line old = old
record_after (cut_short n) line old = recorded (take n line)

pub record Surroundings : Type 0 where
  pub copies : Bool
  pub installs_helper : Bool
  pub backs_up : Bool
  pub installs_agent : Bool
  pub clears_marker : Bool
  pub restarts : Bool
  pub looks : List Look
  pub deadline : Time
  pub unit_failed : Bool
  pub records : RecordWrite
  pub clears_staging : Bool
  pub restores : Bool
  pub writes_result : Bool
  pub removes_request : Bool

-- What the four names of the private copy hold.
pub record Work : Type 0 where
  pub binary : Text
  pub sums : Text
  pub sig : Text
  pub helper : Option Text

-- `healthy`, `none` if it is cut off before it has an answer.
unfoldable pub healthy : Time → Text → List Look → Option Bool
healthy deadline want [] = none
healthy deadline want (l ∷ ls) =
    let rest = healthy deadline want ls in
    if l.failed
    then some false
    else if elim l.marker [ none ↦ false | some v ↦ same_text v want ]
    then some true
    else if not (ltb l.now deadline)
    then some false
    else rest

-- The end of a run: nothing to do, the verdict that it reports, or cut off in the health watch.
pub data End : Type 0 where
  idle cut_off : End
  reported : Result → End

unfoldable pub rejected : Request → Text → Result
rejected req code = record { status = codes "rejected"; from = []; to = req.version; error = code }

unfoldable pub rolled_back : Request → Text → Text → Result
rolled_back req from code = record {
  status = codes "rolled_back";
  from = from;
  to = req.version;
  error = code;
}

-- `finish`, and the removal of the request that every exit after it defers.
unfoldable pub finish : Surroundings → Result → Files → Files × End
finish w r fs = (
  record fs {
    result = (if w.writes_result then some r else fs.result);
    request = (if w.removes_request then no_request else fs.request);
  },
  reported r,
)

unfoldable pub reject : Surroundings → Request → Text → Files → Files × End
unfolding rejected finish
reject w req code fs = finish w (rejected req code) fs

-- The guard on the request's fields.
unfoldable pub well_formed : Text → Request → Bool
well_formed arch req =
    valid_tag req.version
    && same_text req.binary (agent_asset arch)
    && (is_empty req.helper || same_text req.helper (helper_asset arch))

-- `copyStaging`: all the names that the request needs, or none.
abbrev pub work_of : Bool → Option Text → Option Text → Option Text → Option Text → Option Work
work_of no_helper (some b) (some s) (some g) h =
    if no_helper then some (record { binary = b; sums = s; sig = g; helper = none }) else elim h [
      | none ↦ none
      | some f ↦ some (record { binary = b; sums = s; sig = g; helper = some f })
    ]
work_of no_helper none s g h = none
work_of no_helper (some b) none g h = none
work_of no_helper (some b) (some s) none h = none

unfoldable pub copy_staging : Surroundings → Request → Files → Option Work
copy_staging w req fs =
    if not w.copies
    then none
    else work_of (is_empty req.helper) (fs.staged req.binary) (fs.staged sums_name)
        (fs.staged sig_name) (fs.staged req.helper)

-- `signedVersion`.
abbrev pub version_marker : Text
version_marker = codes "# poolpilot-relay-version "

unfoldable pub version_line : List Text → Option Text
version_line [] = none
version_line (l ∷ ls) =
    let rest = version_line ls in
    elim (cut_prefix version_marker l) [
      | none ↦ rest
      | some v ↦ if is_empty (trim_space v) then none else some (trim_space v)
    ]

unfoldable pub signed_version : Text → Option Text
signed_version sums = version_line (split_on 10 sums)
