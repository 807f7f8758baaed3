-- ===== src/Update/Stage.antt =====
-- internal/agent/updater/stage.go: `stage`, the agent's side of the download. `fetch name` is the
-- asset of that name of the release, `none` where its download fails or passes the limit.
pub mod Accepted
use poolpilot_relay.Prelude.{
  Bool, Option, [], false, if◌then◌else◌, is_some, none, not, some, true, ◌&&◌,
}
use poolpilot_relay.Alert.Engine.{request}
use poolpilot_relay.Go.Text.{Text, same_text}
use poolpilot_relay.Recovery.{verify}
use poolpilot_relay.Update.Assets.{
  Request, agent_asset, asset_sum, helper_asset, sig_name, sums_name, verify_sums,
}
use poolpilot_relay.Update.Files.{Files, requested}
use poolpilot_relay.Update.Helper.{Config, Work}
use poolpilot_relay.Update.Run.{is_listed}
use poolpilot_relay.Update.Version.Order.{base}

-- A staging directory with one more file.
abbrev pub put : Text → Text → (Text → Option Text) → Text → Option Text
put name file dir n = if same_text n name then some file else dir n

abbrev pub no_files : Text → Option Text
no_files n = none

-- What the three or four downloads brought.
abbrev pub staging_of : Text → Work → Text → Option Text
staging_of arch work =
    let base =
      put (agent_asset arch) work.binary
        (put sig_name work.sig (put sums_name work.sums no_files)) in
    elim work.helper [ none ↦ base | some h ↦ put (helper_asset arch) h base ]

abbrev pub request_for : Text → Text → Work → Request
request_for arch version work = record {
  version = version;
  binary = agent_asset arch;
  helper = (if is_some work.helper then helper_asset arch else []);
}

module _ (verify : Text → Text → Text → Bool) (sha256 : Text → Text) where
  -- The helper's binary, where the manifest lists one: `none` where its download fails.
  unfoldable pub fetch_helper : (Text → Option Text) → Text → Text → Option (Option Text)
  fetch_helper fetch arch sums =
      if not (is_some (asset_sum sums (helper_asset arch)))
      then some none
      else elim (fetch (helper_asset arch)) [ none ↦ none | some h ↦ some (some h) ]

  abbrev pub with_helper : Text → Text → Text → Option (Option Text) → Option Work
  with_helper sums sig binary none = none
  with_helper sums sig binary (some h) =
      some (record { binary = binary; sums = sums; sig = sig; helper = h })

  -- The downloads after the signature was verified.
  unfoldable pub fetch_binaries : Config → (Text → Option Text) → Text → Text → Option Work
  unfolding fetch_helper
  fetch_binaries cfg fetch sums sig = elim (fetch (agent_asset cfg.arch)) [
    | none ↦ none
    | some b ↦ with_helper sums sig b (fetch_helper fetch cfg.arch sums)
  ]

  abbrev pub if_signed : Config → (Text → Option Text) → Option Text → Option Text → Option Work
  if_signed cfg fetch (some sums) (some sig) =
      if verify_sums verify sums sig cfg.pub_key then fetch_binaries cfg fetch sums sig else none
  if_signed cfg fetch none sig = none
  if_signed cfg fetch (some sums) none = none

  unfoldable pub fetch_all : Config → (Text → Option Text) → Option Work
  unfolding fetch_binaries
  fetch_all cfg fetch = if_signed cfg fetch (fetch sums_name) (fetch sig_name)

  -- The loop over the staged binaries.
  unfoldable pub all_listed : Config → Work → Bool
  all_listed cfg work =
      is_listed sha256 work.sums (agent_asset cfg.arch) work.binary && elim work.helper [
        | none ↦ true
        | some h ↦ is_listed sha256 work.sums (helper_asset cfg.arch) h
      ]

  -- From the downloads on. `commits` is whether the request can be written.
  unfoldable pub commit_stage : Config → Text → Bool → Files → Option Work → Files × Bool
  commit_stage cfg version commits fs none = (record fs { staged = no_files }, false)
  commit_stage cfg version commits fs (some work) =
      let full = record fs { staged = staging_of cfg.arch work } in
      if not (all_listed cfg work)
      then (record fs { staged = no_files }, false)
      else if commits
      then (record full { request = requested (request_for cfg.arch version work) }, true)
      else (full, false)

  unfoldable pub stage : Config → Text → (Text → Option Text) → Bool → Files → Files × Bool
  unfolding commit_stage fetch_all
  stage cfg version fetch commits fs = commit_stage cfg version commits fs (fetch_all cfg fetch)
