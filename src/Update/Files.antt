-- ===== src/Update/Files.antt =====
-- The files that the agent and the helper share, as far as the update reads or writes them.
use poolpilot_relay.Prelude.{Option}
use poolpilot_relay.Go.Text.{Text}
use poolpilot_relay.Update.Assets.{Request, Result}

-- What a reader of `request.json` finds: no file, one that does not decode (what was decoded of it
-- up to there), or a request.
pub data RequestFile : Type 0 where
  no_request : RequestFile
  garbled : Request → RequestFile
  requested : Request → RequestFile

-- `installed-version`.
pub data Record : Type 0 where
  absent unreadable : Record
  recorded : Text → Record

pub record Files : Type 0 where
  pub request : RequestFile
  -- The regular files of the staging directory; `none` for everything else.
  pub staged : Text → Option Text
  -- The version in `health.json`, if there is one.
  pub health : Option Text
  pub result : Option Result
  pub agent : Option Text
  pub helper : Option Text
  pub previous : Option Text
  pub installed : Record
