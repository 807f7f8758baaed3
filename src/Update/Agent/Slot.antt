-- ===== src/Update/Agent/Slot.antt =====
-- The cadence of checks, and the nightly slot.
use poolpilot_relay.Prelude.{
  ==_cases, Bool-cases, String, arith, inl, inr, ltb, refl, some, suc, zero, ℕ, ◌*◌, ◌+◌, ◌-◌, ◌<◌,
  ◌≡◌, ◌≤◌, ◌⊎◌,
}
use poolpilot_relay.Go.Time.{Time, from_seconds_lem, nanoseconds}
use poolpilot_relay.Prelude.Int.{pos, ℤ, ◌≤ℤ◌}
use poolpilot_relay.Update.Agent.{
  clamp_recheck, hour_ns, max_recheck, min_recheck, next_slot, slot_start, until_next_window,
  wait_for_slot, window_offset,
}

-- Whatever the control plane asks for, the pause between checks is one hour to one day; it is what
-- was asked for, in seconds, where that lies between the two.
pub clamp_recheck-bounds :
    (seconds : ℤ)
    → (min_recheck ≤ℤ clamp_recheck seconds)
      × (clamp_recheck seconds ≤ℤ max_recheck)
      × ((n : ℕ)
          → seconds ≡ pos n
          → 3600 ≤ n
          → n ≤ 86400
          → clamp_recheck seconds ≡ pos (n * nanoseconds))
unfolding clamp_recheck
clamp_recheck-bounds seconds = (
  ground arith,
  ground arith,
  λ n e lo hi. ground (arith, e, lo, hi, from_seconds_lem n (omega (arith, hi))),
)

offset_below : (sum32 : ℕ) → window_offset sum32 3600 < hour_ns
unfolding window_offset
offset_below sum32 = ground arith

-- Whatever the agent's id, its slot starts in the hour after three o'clock.
slot_start-bounds :
    (sum32 : ℕ) (three : Time)
    → (three ≤ slot_start sum32 three) × (slot_start sum32 three < three + hour_ns)
unfolding slot_start
slot_start-bounds sum32 three = (omega arith, omega (arith, offset_below sum32))

next_slot_lem :
    (fuel : ℕ) (slot now : Time)
    → now < slot + fuel * (24 * hour_ns)
    → (next : Time) × (next_slot (suc fuel) slot now ≡ some next)
      × (now < next)
      × ((next ≡ slot) ⊎ (next ≤ now + 24 * hour_ns))
unfolding next_slot
next_slot_lem zero slot now h = (slot, ground (arith, h), omega (arith, h), inl refl)
next_slot_lem (suc fuel) slot now h = elim (Bool-cases (ltb now slot)) [
  | inl e ↦ (slot, ground (arith, e), ground (arith, e), inl refl)
  | inr e ↦
      let (next, found, ahead, near) =
        next_slot_lem fuel (slot + 24 * hour_ns) now (omega (arith, h)) in
      (next, ground (arith, e, found), ahead, ground (arith, e, near))
]

wait_of :
    (fuel sum32 : ℕ) (three now next : Time)
    → next_slot fuel (slot_start sum32 three) now ≡ some next
    → wait_for_slot fuel sum32 three now ≡ some (next - now)
unfolding wait_for_slot
wait_of fuel sum32 three now next e = ground (arith, e)

-- `untilNextWindow` ends: on a calendar day whose three o'clock is at most two days before now, three
-- rounds of its loop give a wait that is positive and at most a day, or up to the start of this
-- day's slot, if that is still to come; without an agent's id it is an hour.
pub until_next_window-bounds :
    (hash : String → ℕ) (agent_id : String) (three now : Time)
    → now < three + 2 * (24 * hour_ns)
    → (wait : ℕ) × (until_next_window hash agent_id 3 three now ≡ some wait)
      × (0 < wait)
      × ((wait ≤ 24 * hour_ns) ⊎ (now + wait ≡ slot_start (hash agent_id) three))
      × (agent_id ≡ "" → wait ≡ hour_ns)
unfolding until_next_window
until_next_window-bounds hash agent_id three now h = elim (==_cases agent_id "") [
  | inl (e, _) ↦ (hour_ns, rw e refl, omega arith, inl (omega arith), λ _. refl)
  | inr (e, named) ↦
      let start = slot_start (hash agent_id) three in
      let (from_three, _) = slot_start-bounds (hash agent_id) three in
      let (next, found, ahead, near) = next_slot_lem 2 start now (omega (arith, h, from_three)) in
      (
        next - now,
        rw e (wait_of 3 (hash agent_id) three now next found),
        omega (arith, ahead),
        ground (arith, near, ahead),
        λ gone. absurd (named gone),
      )
]
