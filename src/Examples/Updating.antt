-- ===== src/Examples/Updating.antt =====
-- The self-update of a relay from one release to the next.
use poolpilot_relay.Prelude.{
  Bool, Option, [], arith, false, none, refl, some, subst, take, true, ◌++◌, ◌∷◌, ◌≡◌, ◌≢◌,
}
use poolpilot_relay.Examples.Data.{hour}
use poolpilot_relay.Go.Text.{
  Text, codes, cut_prefix, equal_fold, fields, fold_case, is_space, latin_space, same_text,
  split_on, split_spaces, trim_left, trim_right, trim_space, wide_space,
}
use poolpilot_relay.Go.Time.{after}
use poolpilot_relay.Update.Agent.{hour_ns}
use poolpilot_relay.Update.Assets.{
  Request, Result, agent_asset, asset_sum, find_sum, helper_asset, key_line, line_sum, sig_name,
  sums_name, verify_file, verify_sums,
}
use poolpilot_relay.Update.Files.{Files, no_request, recorded, requested}
use poolpilot_relay.Update.Helper.{
  Config, Surroundings, Work, copy_staging, cut_off, finish, healthy, record_after, reject,
  rejected, reported, rolled_back, signed_version, version_line, well_formed, whole,
}
use poolpilot_relay.Update.Run.{
  after_watch, already_installed, answer, apply, back_up_and_install, check_work, follow, install,
  install_agent, is_listed, is_signed_version, on_request, replace_helper, restart, rollback, run,
  succeed, verify_work, watch_health,
}
use poolpilot_relay.Update.Run.Answered.{run_answers}
use poolpilot_relay.Update.Run.Forward.{AtLeast, Machine-AtLeast, helps, starts}
use poolpilot_relay.Update.Run.Paths.{moves_on}
use poolpilot_relay.Update.Run.Restored.{NotYet, once_more, rollback_restores, untouched}
use poolpilot_relay.Update.Run.Verified.{IsAllowed, run-IsAllowed}
use poolpilot_relay.Update.Stage.{
  all_listed, commit_stage, fetch_all, fetch_binaries, fetch_helper, no_files, put, request_for,
  stage,
}
use poolpilot_relay.Update.Stage.Accepted.{stage_accepted}
use poolpilot_relay.Update.Version.{
  compare_pairs, compare_versions, component, digits_value, is_digit, newer, parse_version,
  valid_tag,
}

-- A hash and a signature scheme that tell these files apart.
abbrev toy_hash : Text → Text
toy_hash file = codes "a" ++ file

abbrev any_signature : Text → Text → Text → Bool
any_signature line sums sig = true

abbrev old_agent : Text
old_agent = codes "0"

abbrev new_agent : Text
new_agent = codes "1"

abbrev manifest : Text
manifest =
    codes "a1  poolpilot-relay_linux_arm64"
    ++ (10 ∷ (codes "# poolpilot-relay-version v1.3.0" ++ (10 ∷ [])))

abbrev installation : Config
installation = record { pub_key = codes "RWQ"; arch = codes "arm64" }

abbrev release : Text → Option Text
release =
    put sums_name manifest
      (put sig_name (codes "sig") (put (codes "poolpilot-relay_linux_arm64") new_agent no_files))

abbrev wish : Request
wish = record {
  version = codes "v1.3.0";
  binary = codes "poolpilot-relay_linux_arm64";
  helper = [];
}

abbrev disk : Files
disk = record {
  request = requested wish;
  staged = release;
  health = none;
  result = none;
  agent = some old_agent;
  helper = none;
  previous = none;
  installed = recorded (codes "v1.2.0");
}

-- The unit fails after the restart.
abbrev failing : Surroundings
failing = record {
  copies = true;
  installs_helper = true;
  backs_up = true;
  installs_agent = true;
  clears_marker = true;
  restarts = true;
  looks = record { failed = true; marker = none; now = hour 1 } ∷ [];
  deadline = hour 1;
  unit_failed = true;
  records = whole;
  clears_staging = true;
  restores = true;
  writes_result = true;
  removes_request = true;
}

-- The helper dies in the health watch.
abbrev dying : Surroundings
dying = record failing { looks = [] }

run-IsAllowed_example :
    IsAllowed any_signature toy_hash installation disk
      (run any_signature toy_hash installation failing disk).0
run-IsAllowed_example = run-IsAllowed any_signature toy_hash installation failing disk

-- The new agent comes up and writes its marker.
abbrev thriving : Surroundings
thriving = record failing {
  looks = record { failed = false; marker = some (codes "v1.3.0"); now = hour 0 } ∷ [];
  unit_failed = false;
}

moved_ahead :
    (run any_signature toy_hash installation thriving disk).0.installed
    ≡ recorded (codes "v1.3.0" ++ (10 ∷ []))
unfolding same_text split_on cut_prefix is_space latin_space wide_space trim_left trim_right
    trim_space split_spaces fields fold_case equal_fold is_digit digits_value component
    parse_version compare_pairs compare_versions valid_tag newer agent_asset helper_asset key_line
    line_sum find_sum asset_sum verify_sums verify_file healthy rejected rolled_back finish reject
    well_formed copy_staging version_line signed_version is_listed verify_work already_installed
    install_agent back_up_and_install replace_helper install rollback succeed record_after
    after_watch watch_health restart apply follow is_signed_version check_work on_request answer run
moved_ahead = refl

-- A record of v1.10.12 that is cut short after seven bytes reads v1.10.1, and v1.10.2 is newer.
cut_record : newer (codes "v1.10.2") (trim_space (take 7 (codes "v1.10.12" ++ (10 ∷ [])))) ≡ true
unfolding is_space latin_space wide_space trim_left trim_right trim_space split_on is_digit
    digits_value component parse_version compare_pairs compare_versions newer cut_prefix same_text
cut_record = refl

-- Two runs: the update comes up, and the next does not.
Machine-AtLeast_example :
    AtLeast any_signature toy_hash
      (codes "v1.2.0")
      (run any_signature toy_hash installation failing
        (run any_signature toy_hash installation thriving disk).0).0.installed
Machine-AtLeast_example =
    Machine-AtLeast any_signature toy_hash disk
      (run any_signature toy_hash installation failing
        (run any_signature toy_hash installation thriving disk).0).0
      (codes "v1.2.0") (helps installation failing (helps installation thriving starts))
      (λ n e. absurd (ground (arith, e)), (λ n e. absurd (ground (arith, e)), tt)) refl

some_request : disk.request ≢ no_request
some_request p = absurd (ground (arith, p))

run_answers_example :
    let (after, end) = run any_signature toy_hash installation failing disk in
    (r : Result) × (end ≡ reported r)
    × (true ≡ true → after.request ≡ no_request)
    × (true ≡ true → after.result ≡ some r)
run_answers_example =
    run_answers any_signature toy_hash installation failing disk hour_ns (hour 0) some_request
      (omega arith) (omega arith) (omega arith)

differs : NotYet any_signature toy_hash installation disk
unfolding agent_asset same_text
differs a b p q = ground (arith, p, q)

cut_short : (run any_signature toy_hash installation dying disk).1 ≡ cut_off
unfolding same_text split_on cut_prefix is_space latin_space wide_space trim_left trim_right
    trim_space split_spaces fields fold_case equal_fold is_digit digits_value component
    parse_version compare_pairs compare_versions valid_tag newer agent_asset helper_asset key_line
    line_sum find_sum asset_sum verify_sums verify_file healthy rejected rolled_back finish reject
    well_formed copy_staging version_line signed_version is_listed verify_work already_installed
    install_agent back_up_and_install replace_helper install rollback succeed after_watch
    watch_health restart apply follow is_signed_version check_work on_request answer run
cut_short = refl

back_again :
    (r : Result) × ((run any_signature toy_hash installation failing
        (run any_signature toy_hash installation dying disk).0).1
      ≡ reported r)
    × (r.status ≡ codes "rolled_back")
unfolding same_text split_on cut_prefix is_space latin_space wide_space trim_left trim_right
    trim_space split_spaces fields fold_case equal_fold is_digit digits_value component
    parse_version compare_pairs compare_versions valid_tag newer agent_asset helper_asset key_line
    line_sum find_sum asset_sum verify_sums verify_file healthy rejected rolled_back finish reject
    well_formed copy_staging version_line signed_version is_listed verify_work already_installed
    install_agent back_up_and_install replace_helper install rollback succeed after_watch
    watch_health restart apply follow is_signed_version check_work on_request answer run
back_again = (rolled_back wish (codes "v1.2.0") (codes "unit_failed"), refl, refl)

is_tag : valid_tag (codes "v1.3.0") ≡ true
unfolding is_digit digits_value component parse_version compare_pairs compare_versions valid_tag
    newer split_on
is_tag = refl

is_newer : newer (codes "v1.3.0") (codes "v1.2.0") ≡ true
unfolding is_digit digits_value component parse_version compare_pairs compare_versions valid_tag
    newer split_on
is_newer = refl

signed_manifest : signed_version manifest ≡ some (codes "v1.3.0")
unfolding same_text split_on cut_prefix is_space latin_space wide_space trim_left trim_right
    trim_space split_spaces fields fold_case equal_fold version_line signed_version
signed_manifest = refl

record_trimmed : codes "v1.2.0" ≡ trim_space (codes "v1.2.0")
unfolding same_text split_on cut_prefix is_space latin_space wide_space trim_left trim_right
    trim_space split_spaces fields fold_case equal_fold
record_trimmed = refl

names_version :
    (sums : Text) → release sums_name ≡ some sums → signed_version sums ≡ some (codes "v1.3.0")
unfolding same_text
names_version sums e =
    let same : manifest ≡ sums = ground (arith, e) in
    subst (λ t. signed_version t ≡ some (codes "v1.3.0")) same signed_manifest

rollback_restores_example :
    (run any_signature toy_hash installation failing
      (run any_signature toy_hash installation dying disk).0).0.agent
    ≡ some old_agent
rollback_restores_example =
    rollback_restores any_signature toy_hash installation failing disk
      (run any_signature toy_hash installation dying disk).0 old_agent back_again.0 differs refl
      (once_more dying untouched cut_short) refl back_again.1 back_again.2

-- What is on the disk before the download.
abbrev before_download : Files
before_download = record disk { request = no_request; staged = no_files }

downloaded :
    (stage any_signature toy_hash installation (codes "v1.3.0") release true before_download).1
    ≡ true
unfolding same_text split_on cut_prefix is_space latin_space wide_space trim_left trim_right
    trim_space split_spaces fields fold_case equal_fold agent_asset helper_asset key_line line_sum
    find_sum asset_sum verify_sums verify_file is_listed fetch_helper fetch_binaries fetch_all
    all_listed commit_stage stage
downloaded = refl

stage_accepted_example :
    let after =
      (stage any_signature toy_hash installation (codes "v1.3.0") release true before_download).0 in
    (work : Work) × (fetch_all any_signature toy_hash installation release ≡ some work)
    × (run any_signature toy_hash installation failing after
        ≡ apply toy_hash failing
            (request_for (codes "arm64") (codes "v1.3.0") work)
            work
            (codes "v1.2.0")
            after)
stage_accepted_example =
    stage_accepted any_signature toy_hash installation (codes "v1.3.0") (codes "v1.2.0") release
      true failing before_download downloaded names_version is_tag
      (moves_on (codes "v1.2.0") record_trimmed is_newer) refl
