-- ===== src/Update/Assets.antt =====
-- internal/update/protocol.go and verify.go: the names of the release assets, the messages between
-- the agent and the helper, and the verification of what was staged. The signature scheme and the
-- hash are parameters: `verify line sums sig` is whether minisign takes `line` for a key and `sig`
-- for its signature of `sums`, and `sha256 f` is the hex sha256 of a file.
use poolpilot_relay.Prelude.{
  Bool, List, Option, String, [], if◌then◌else◌, is_some, none, not, some, ◌&&◌, ◌++◌, ◌==◌, ◌||◌,
  ◌∷◌,
}
use poolpilot_relay.Go.Text.{
  Text, codes, cut_prefix, equal_fold, fields, is_empty, same_text, split_on, trim_space,
}

-- `request.json`, `result.json` without its time stamp.
pub record Request : Type 0 where
  pub version : Text
  pub binary : Text
  pub helper : Text

pub record Result : Type 0 where
  pub status : Text
  pub from : Text
  pub to : Text
  pub error : Text

unfoldable pub agent_asset : Text → Text
agent_asset arch = codes "poolpilot-relay_linux_" ++ arch

unfoldable pub helper_asset : Text → Text
helper_asset arch = codes "poolpilot-relay-updater_linux_" ++ arch

abbrev pub sums_name : Text
sums_name = codes "sha256sums.txt"

abbrev pub sig_name : Text
sig_name = codes "sha256sums.txt.minisig"

-- `archLabel`.
unfoldable pub arch_label : String → Option String
arch_label goarch =
    if goarch == "arm64"
    then some "arm64"
    else if goarch == "arm"
    then some "armv7"
    else if goarch == "amd64"
    then some "amd64"
    else if goarch == "386"
    then some "386"
    else if goarch == "riscv64"
    then some "riscv64"
    else none

-- `RuntimeArch`.
unfoldable pub runtime_arch : String → String → Option String
unfolding arch_label
runtime_arch goos goarch = if not (goos == "linux") then none else arch_label goarch

-- The loop of `ParsePublicKey`: the last line that is neither empty nor a comment.
unfoldable pub key_line : List Text → Text → Text
key_line [] line = line
key_line (l ∷ ls) line =
    let s = trim_space l in
    key_line ls
      (if is_empty s || is_some (cut_prefix (codes "untrusted comment:") s) then line else s)

-- The loop of `AssetSum`.
unfoldable pub line_sum : List Text → Text → Option Text
line_sum (sum ∷ name ∷ []) asset = if same_text name asset then some sum else none
line_sum [] asset = none
line_sum (sum ∷ []) asset = none
line_sum (sum ∷ name ∷ extra ∷ more) asset = none

unfoldable pub find_sum : List Text → Text → Option Text
find_sum [] asset = none
find_sum (l ∷ ls) asset =
    let rest = find_sum ls asset in
    elim (line_sum (fields l) asset) [ some sum ↦ some sum | none ↦ rest ]

unfoldable pub asset_sum : Text → Text → Option Text
asset_sum sums asset = find_sum (split_on 10 sums) asset

module _ (verify : Text → Text → Text → Bool) where
  unfoldable pub verify_sums : Text → Text → Text → Bool
  verify_sums sums sig pub_key =
      let line = key_line (split_on 10 pub_key) [] in not (is_empty line) && verify line sums sig

module _ (sha256 : Text → Text) where
  unfoldable pub verify_file : Text → Text → Bool
  verify_file file hex_sum = equal_fold (sha256 file) hex_sum
