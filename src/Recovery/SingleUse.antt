-- ===== src/Recovery/SingleUse.antt =====
-- Which codes are accepted, and when a window is spent.
use poolpilot_relay.Prelude.{
  ==_refl, List, Option, Option-cases, String, [], arith, eq_iff, inl, inr, some, ◌∷◌, ◌≡◌, ◌≢◌,
  ◌⊎◌,
}
use poolpilot_relay.Go.Int64.{sub64}
use poolpilot_relay.Go.Time.{Time}
use poolpilot_relay.Prelude.Int.{int_laws, pos, ℤ, ◌+ℤ◌, ◌<ℤ◌, ◌≤ℤ◌}
use poolpilot_relay.Recovery.{verify, verify_windows, window_index}

abbrev pub IsOneOf : List ℤ → ℤ → Type 0
IsOneOf [] w = ⊥
IsOneOf (v ∷ vs) w = (w ≡ v) ⊎ IsOneOf vs w

module _ (code : ℤ → Option String) where
  windows_sound :
      (ws : List ℤ) (presented : String) (min_window w : ℤ)
      → verify_windows code ws presented min_window ≡ some w
      → (min_window ≤ℤ w) × (code w ≡ some presented) × IsOneOf ws w
  unfolding verify_windows
  windows_sound [] presented m w h = absurd (ground arith)
  windows_sound (v ∷ ws) presented m w h = elim (Option-cases (code v)) [
    | inl e ↦ ground (arith, e, windows_sound ws presented m w)
    | inr (s, e) ↦ ground (arith, e, windows_sound ws presented m w, eq_iff s presented)
  ]

  -- A code is accepted only for the current window or the one before it, for a window at or above
  -- the caller's minimum, and only if it is the code of that window.
  pub verify_sound :
      (presented : String) (t : Time) (min_window w : ℤ)
      → verify code presented t min_window ≡ some w
      → (min_window ≤ℤ w)
        × (code w ≡ some presented)
        × ((w ≡ window_index t) ⊎ (w ≡ sub64 (window_index t) (pos 1)))
  unfolding verify
  verify_sound presented t m w h =
      ground
        (arith, windows_sound (window_index t ∷ sub64 (window_index t) (pos 1) ∷ []) presented m w)

  -- The code of the current window is accepted, if it is not the empty text and the window is not
  -- below the minimum.
  verify_current :
      (presented : String) (t : Time) (min_window : ℤ)
      → presented ≢ ""
      → code (window_index t) ≡ some presented
      → min_window ≤ℤ window_index t
      → verify code presented t min_window ≡ some (window_index t)
  unfolding verify verify_windows
  verify_current presented t m named e h =
      ground (arith, named, eq_iff presented "", e, ==_refl presented)

  -- What the agent does with an accepted window: the next code must be of a later one.
  abbrev pub next_minimum : ℤ → ℤ
  next_minimum w = w +ℤ pos 1

  -- Once a window is accepted and its successor is the minimum, whatever is accepted at any later
  -- or earlier time is of a strictly later window: neither the code just used nor one of a window
  -- before it is good again.
  pub verify_once :
      (presented again : String) (t u : Time) (min_window w v : ℤ)
      → verify code presented t min_window ≡ some w
      → verify code again u (next_minimum w) ≡ some v
      → (w <ℤ v) × (min_window ≤ℤ w)
  verify_once presented again t u m w v h k =
      let used = verify_sound presented t m w h in
      let fresh_one = verify_sound again u (next_minimum w) v k in
      (omega (int_laws, fresh_one.0), used.0)
