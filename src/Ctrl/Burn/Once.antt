-- ===== src/Ctrl/Burn/Once.antt =====
-- internal/agent/ctrlfilter/session.go: a nonce is spent once.
use poolpilot_relay.Prelude.{Bool, [], any, arith, false, not, refl, true, ◌&&◌, ◌<◌, ◌∷◌, ◌≡◌, ◌≤◌}
use poolpilot_relay.Ctrl.Burn.{BurnList, burn, is_burned, prune}
use poolpilot_relay.Go.Text.{Text, same_text, same_text_iff}
use poolpilot_relay.Go.Time.{Time, before}

-- What the list holds of a nonce: an entry that lasts beyond `until`.
abbrev pub holds_beyond : Text → Time → BurnList → Bool
holds_beyond nonce until burned = any (λ e. same_text e.0 nonce && not (before e.1 until)) burned

prune-holds :
    (nonce : Text) (until now : Time) (burned : BurnList)
    → now < until
    → holds_beyond nonce until burned ≡ true
    → holds_beyond nonce until (prune now burned) ≡ true
unfolding prune
prune-holds nonce until now [] l h = ground (arith, h)
prune-holds nonce until now (e ∷ es) l h = ground (arith, h, l, prune-holds nonce until now es l)

holds-is_burned :
    (nonce : Text) (until : Time) (burned : BurnList)
    → holds_beyond nonce until burned ≡ true
    → is_burned nonce burned ≡ true
unfolding is_burned
holds-is_burned nonce until [] h = ground (arith, h)
holds-is_burned nonce until (e ∷ es) h = ground (arith, h, holds-is_burned nonce until es)

-- Until then, no use of the nonce finds it fresh.
pub burned_refused :
    (nonce : Text) (until exp now : Time) (burned : BurnList)
    → now < until
    → holds_beyond nonce until burned ≡ true
    → (burn nonce exp now burned).1 ≡ false
unfolding burn
burned_refused nonce until exp now burned l h =
    let kept = prune-holds nonce until now burned l h in
    ground (arith, holds-is_burned nonce until (prune now burned) kept)

-- And any use keeps the entry.
pub burn-holds :
    (nonce other : Text) (until exp now : Time) (burned : BurnList)
    → now < until
    → holds_beyond nonce until burned ≡ true
    → holds_beyond nonce until (burn other exp now burned).0 ≡ true
unfolding burn
burn-holds nonce other until exp now burned l h =
    ground (arith, prune-holds nonce until now burned l h)

-- A use that finds it fresh leaves the entry.
pub burn_fresh-holds :
    (nonce : Text) (until exp now : Time) (burned : BurnList)
    → until ≤ exp
    → (burn nonce exp now burned).1 ≡ true
    → holds_beyond nonce until (burn nonce exp now burned).0 ≡ true
unfolding burn
burn_fresh-holds nonce until exp now burned l h =
    ground (arith, h, l, (same_text_iff nonce nonce).1 refl)
