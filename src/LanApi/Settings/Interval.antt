-- ===== src/LanApi/Settings/Interval.antt =====
-- The poll interval that is in force.
use poolpilot_relay.Prelude.{
  Bool, Bool-cases, ap, arith, false, inl, inr, none, refl, some, sym, true, ℕ, ◌*◌, ◌∙◌, ◌≡◌, ◌≤◌,
}
use poolpilot_relay.Go.Int64.{div_trunc}
use poolpilot_relay.Go.Time.{Duration, from_seconds, from_seconds_lem, nanoseconds}
use poolpilot_relay.LanApi.Auth.{refused}
use poolpilot_relay.LanApi.Settings.{
  PollIntervalResponse, effective_interval, poll_interval_of, put_poll_interval, set_interval,
  valid_interval_seconds, whole_seconds,
}
use poolpilot_relay.Prelude.Int.{negsuc, pos, ℤ, ◌<ℤ◌}
use poolpilot_relay.State.Document.{State}
use poolpilot_relay.Store.{Store, normalize, update}
use poolpilot_relay.Store.Cases.{update-cases}

-- An override that is in force is of 3 to 600 seconds.
valid_seconds :
    (s : ℤ) → valid_interval_seconds s ≡ true → (n : ℕ) × (s ≡ pos n) × (3 ≤ n) × (n ≤ 600)
unfolding valid_interval_seconds
valid_seconds (pos n) h = (n, refl, ground (arith, h), ground (arith, h))
valid_seconds (negsuc n) h = absurd (ground (arith, h))

-- Whatever the document holds and whatever the default is, the loop waits a positive time; with an
-- override in force it is exactly that many seconds, of 3 to 600.
pub effective_interval-bounds :
    (s : State) (def : Duration)
    → (pos 0 <ℤ effective_interval s def)
      × (valid_interval_seconds s.poll_interval_seconds ≡ true
          → (n : ℕ) × (s.poll_interval_seconds ≡ pos n)
            × (3 ≤ n)
            × (n ≤ 600)
            × (effective_interval s def ≡ pos (n * nanoseconds)))
unfolding effective_interval
effective_interval-bounds s def =
    elim (Bool-cases (valid_interval_seconds s.poll_interval_seconds)) [
      | inr e ↦ (ground (arith, e), λ h. absurd (ground (arith, e, h)))
      | inl e ↦
          let (n, p, lo, hi) = valid_seconds s.poll_interval_seconds e in
          let exact : effective_interval s def ≡ pos (n * nanoseconds) =
            rw (e, p, effective_interval) (from_seconds_lem n (omega (arith, hi))) in
          (rw (exact) (omega (arith, lo)), λ h. (n, p, lo, hi, exact))
    ]

-- The interval that is answered is the one that was put.
whole_exact : (n : ℕ) → 1 ≤ n → whole_seconds (pos (n * nanoseconds)) ≡ pos n
unfolding whole_seconds div_trunc
whole_exact n h = ground (arith, h)

in_force :
    (def : Duration) (seconds : ℤ) (s : State)
    → valid_interval_seconds seconds ≡ true
    → effective_interval (normalize (set_interval seconds s)) def ≡ from_seconds seconds
unfolding effective_interval normalize
in_force def seconds s e = rw (e) refl

shown_interval :
    (def : Duration) (seconds : ℤ) (s : State)
    → valid_interval_seconds seconds ≡ true
    → let resp = poll_interval_of (normalize (set_interval seconds s)) def in
      (resp.seconds ≡ seconds) × (resp.overridden ≡ true)
unfolding poll_interval_of
shown_interval def seconds s e =
    let (n, p, lo, hi) = valid_seconds seconds e in
    (
      ap whole_seconds
            (in_force def seconds s e ∙ ap from_seconds p ∙ from_seconds_lem n (omega (arith, hi)))
          ∙ whole_exact n (omega (arith, lo))
          ∙ sym p,
      unfold normalize in e,
    )

-- A PUT that the store takes is answered with the seconds that were put, and the loop then waits
-- them, where they are 3 to 600; any other PUT is refused and changes nothing.
pub put_poll_interval_lem :
    (def : Duration) (persists : Bool) (seconds : ℤ) (st : Store)
    → let (st', r) = put_poll_interval def persists (some seconds) st in
      (valid_interval_seconds seconds ≡ true
        → (update persists (set_interval seconds) st).1 ≡ none
        → (resp : PollIntervalResponse) × (r ≡ inr resp)
          × (resp.seconds ≡ seconds)
          × (resp.overridden ≡ true)
          × (effective_interval st'.doc def ≡ from_seconds seconds))
      × (valid_interval_seconds seconds ≡ false
          → (r ≡ inl (refused 400 "poll_interval_out_of_range")) × (st' ≡ st))
unfolding put_poll_interval
put_poll_interval_lem def persists seconds st = elim (Bool-cases (valid_interval_seconds seconds)) [
  | inr e ↦ (λ h. absurd (ground (arith, e, h)), λ h. rw (e, put_poll_interval) (refl, refl))
  | inl e ↦ (
    λ h u. elim (update-cases persists (set_interval seconds) st) [
      | inr (x, f) ↦ absurd (ground (arith, f, u))
      | inl f ↦
          let (shown, over) = shown_interval def seconds st.doc e in
          (
            poll_interval_of (normalize (set_interval seconds st.doc)) def,
            rw (e, f, put_poll_interval),
            shown,
            over,
            rw (e, f, put_poll_interval) (in_force def seconds st.doc e),
          )
    ],
    λ h. absurd (ground (arith, e, h)),
  )
]
