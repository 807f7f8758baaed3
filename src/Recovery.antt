-- ===== src/Recovery.antt =====
-- internal/agent/recovery/recovery.go: the windows of the owner-recovery code. The code itself,
-- `Code`, is derived with HKDF and HMAC: a parameter, `none` where it returns an error.
pub mod SingleUse
use poolpilot_relay.Prelude.{List, Option, String, [], if◌then◌else◌, none, some, ◌==◌, ◌∷◌}
use poolpilot_relay.Go.Int64.{add64, div_trunc, mul64, sub64}
use poolpilot_relay.Go.Time.{Duration, Time, of_unix, unix}
use poolpilot_relay.Prelude.Int.{ltb_ℤ, pos, ℤ}

-- Window / time.Second.
abbrev pub window_seconds : ℤ
window_seconds = pos 600

-- 10 minutes, in nanoseconds.
abbrev pub window : Duration
window = pos 600000000000

-- `t.UTC().Unix() / 600`: a division of int64 that cuts towards zero.
unfoldable pub window_index : Time → ℤ
window_index t = div_trunc (unix t) window_seconds

unfoldable pub window_end : ℤ → Time
window_end w = of_unix (mul64 (add64 w (pos 1)) window_seconds)

-- `code w` is `Code(keyPEM, agentID, w)`.
module _ (code : ℤ → Option String) where
  -- The loop of `Verify` over the windows that it is given.
  unfoldable pub verify_windows : List ℤ → String → ℤ → Option ℤ
  verify_windows [] presented min_window = none
  verify_windows (w ∷ ws) presented min_window =
      let rest = verify_windows ws presented min_window in
      if ltb_ℤ w min_window
      then rest
      else elim (code w) [ none ↦ none | some want ↦ if want == presented then some w else rest ]

  unfoldable pub verify : String → Time → ℤ → Option ℤ
  verify presented t min_window =
      let current = window_index t in
      if presented == ""
      then none
      else verify_windows (current ∷ sub64 current (pos 1) ∷ []) presented min_window
