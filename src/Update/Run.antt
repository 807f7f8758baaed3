-- ===== src/Update/Run.antt =====
-- internal/update/helper/helper.go: `Run`.
pub mod Paths
pub mod Steps
pub mod Verified
pub mod ReadBack
pub mod Forward
pub mod Restored
pub mod Answered
use poolpilot_relay.Prelude.{
  Bool, Option, [], false, if◌then◌else◌, is_some, none, not, some, true, ◌&&◌, ◌++◌, ◌∷◌,
}
use poolpilot_relay.Cloud.Calls.{status}
use poolpilot_relay.Go.Text.{Text, codes, same_text, trim_space}
use poolpilot_relay.Recovery.{verify}
use poolpilot_relay.Update.Assets.{Request, asset_sum, verify_file, verify_sums}
use poolpilot_relay.Update.Files.{
  Files, Record, RequestFile, absent, garbled, no_request, recorded, requested, unreadable,
}
use poolpilot_relay.Update.Helper.{
  Config, End, Surroundings, Work, copy_staging, cut_off, finish, healthy, idle, record_after,
  reject, rolled_back, signed_version, well_formed,
}
use poolpilot_relay.Update.Version.{newer}

-- The self-replacement of the helper, the backup and the installation, and whether all succeeded.
unfoldable pub install_agent : Surroundings → Work → Files → Files × Bool
install_agent w work fs =
    if not w.installs_agent then (fs, false) else (record fs { agent = some work.binary }, true)

-- `backupAgent` and what follows it, by the agent binary that is there.
unfoldable pub back_up_and_install : Surroundings → Work → Files → Option Text → Files × Bool
back_up_and_install w work fs none = (fs, false)
back_up_and_install w work fs (some a) =
    if not w.backs_up then (fs, false) else install_agent w work (record fs { previous = some a })

unfoldable pub replace_helper : Option Text → Files → Files
replace_helper none fs = fs
replace_helper (some h) fs = record fs { helper = some h }

unfoldable pub rollback : Surroundings → Request → Text → Text → Files → Files × End
rollback w req from code fs =
    finish w (rolled_back req from code)
      (if w.restores && is_some fs.previous then record fs { agent = fs.previous } else fs)

-- The end of a healthy run.
unfoldable pub succeed : Surroundings → Request → Text → Files → Files × End
unfolding record_after
succeed w req from fs =
    finish w (record { status = codes "ok"; from = from; to = req.version; error = [] })
      (record fs {
        installed = record_after w.records (req.version ++ (10 ∷ [])) fs.installed;
        staged = (if w.clears_staging then (λ _. none) else fs.staged);
      })

-- By the answer of the health watch.
unfoldable pub after_watch : Surroundings → Request → Text → Files → Option Bool → Files × End
after_watch w req from fs none = (fs, cut_off)
after_watch w req from fs (some true) = succeed w req from fs
after_watch w req from fs (some false) =
    rollback w req from (codes (if w.unit_failed then "unit_failed" else "health_timeout")) fs

-- From the restart on.
unfoldable pub watch_health : Surroundings → Request → Text → Files → Files × End
watch_health w req from fs =
    if not w.restarts
    then rollback w req from (codes "restart_failed") fs
    else after_watch w req from fs (healthy w.deadline req.version w.looks)

unfoldable pub restart : Surroundings → Request → Text → Files → Files × End
restart w req from fs =
    watch_health w req from (record fs { health = (if w.clears_marker then none else fs.health) })

unfoldable pub is_signed_version : Request → Work → Bool
is_signed_version req work = elim (signed_version work.sums) [
  | none ↦ false
  | some v ↦ same_text req.version v
]

module _ (sha256 : Text → Text) where
  -- One round of the last loop of `verifyWork`.
  unfoldable pub is_listed : Text → Text → Text → Bool
  is_listed sums name file = elim (asset_sum sums name) [
    | none ↦ false
    | some sum ↦ verify_file sha256 file sum
  ]

  unfoldable pub already_installed : Work → Files → Bool
  already_installed work fs = elim fs.agent [
    | none ↦ false
    | some a ↦ same_text (sha256 a) (sha256 work.binary)
  ]

  unfoldable pub install : Surroundings → Work → Files → Files × Bool
  install w work fs =
      if already_installed work fs
      then (fs, true)
      else if is_some work.helper && not w.installs_helper
      then (fs, false)
      else let fs' = replace_helper work.helper fs in back_up_and_install w work fs' fs'.agent

  -- The request went through every check.
  unfoldable pub apply : Surroundings → Request → Work → Text → Files → Files × End
  apply w req work from fs =
      let (fs', installed) = install w work fs in
      if installed then restart w req from fs' else reject w req (codes "install_failed") fs'

  -- The monotonicity check, by what `installed-version` holds.
  unfoldable pub follow : Surroundings → Request → Work → Files → Record → Files × End
  follow w req work fs absent = apply w req work [] fs
  follow w req work fs unreadable = reject w req (codes "records_unreadable") fs
  follow w req work fs (recorded v) =
      if newer req.version (trim_space v)
      then apply w req work (trim_space v) fs
      else reject w req (codes "not_newer") fs

module _ (verify : Text → Text → Text → Bool) (sha256 : Text → Text) where
  unfoldable pub verify_work : Config → Request → Work → Bool
  verify_work cfg req work =
      verify_sums verify work.sums work.sig cfg.pub_key
      && is_listed sha256 work.sums req.binary work.binary
      && elim work.helper [ none ↦ true | some h ↦ is_listed sha256 work.sums req.helper h ]

  unfoldable pub check_work : Config → Surroundings → Request → Work → Files → Files × End
  check_work cfg w req work fs =
      if not (verify_work cfg req work)
      then reject w req (codes "verify_failed") fs
      else if not (is_signed_version req work)
      then reject w req (codes "version_mismatch") fs
      else follow sha256 w req work fs fs.installed

  unfoldable pub on_request : Config → Surroundings → Request → Files → Files × End
  on_request cfg w req fs =
      if not (well_formed cfg.arch req)
      then reject w req (codes "bad_request") fs
      else elim (copy_staging w req fs) [
        | none ↦ reject w req (codes "verify_failed") fs
        | some work ↦ check_work cfg w req work fs
      ]

  -- `Run`, by what `request.json` holds.
  unfoldable pub answer : Config → Surroundings → Files → RequestFile → Files × End
  answer cfg w fs no_request = (fs, idle)
  answer cfg w fs (garbled req) = reject w req (codes "bad_request") fs
  answer cfg w fs (requested req) = on_request cfg w req fs

  unfoldable pub run : Config → Surroundings → Files → Files × End
  unfolding answer
  run cfg w fs = answer cfg w fs fs.request
