-- ===== src/Preset.antt =====
-- preset/preset.go: the supported controller presets.
use poolpilot_relay.Prelude.{Bool, List, String, [], contains, ◌∷◌}

abbrev pub procon_ip : String
procon_ip = "procon-ip"

abbrev pub violet : String
violet = "violet"

unfoldable pub supported : List String
supported = procon_ip ∷ violet ∷ []

-- The loop over `Supported()`.
unfoldable pub is_supported : String → Bool
unfolding supported contains
is_supported p = contains supported p
