-- ===== src/Ctrl/Burn.antt =====
-- internal/agent/ctrlfilter/session.go: the nonces of redeemed tokens. The lock makes each use one
-- step.
pub mod Once
use poolpilot_relay.Prelude.{Bool, List, any, false, filter, if◌then◌else◌, length, true, ℕ, ◌∷◌}
use poolpilot_relay.Go.Text.{Text, same_text}
use poolpilot_relay.Go.Time.{Time, before}
use poolpilot_relay.Store.Consistent.{live}

abbrev pub BurnList : Type 0
BurnList = List (Text × Time)

-- `pruneLocked`.
unfoldable pub prune : Time → BurnList → BurnList
prune now burned = filter (λ e. before now e.1) burned

unfoldable pub is_burned : Text → BurnList → Bool
is_burned nonce burned = any (λ e. same_text e.0 nonce) burned

-- `use`: the list afterwards, and whether the nonce was fresh.
unfoldable pub burn : Text → Time → Time → BurnList → BurnList × Bool
unfolding prune is_burned
burn nonce exp now burned =
    let live = prune now burned in
    if is_burned nonce live then (live, false) else ((nonce, exp) ∷ live, true)

unfoldable pub burn_count : Time → BurnList → ℕ
unfolding prune
burn_count now burned = length (prune now burned)
