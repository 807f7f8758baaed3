-- ===== src/LanApi/Pairing/Cap.antt =====
-- What a pairing leaves behind on each path, and the bound on the household's devices.
use poolpilot_relay.Prelude.{
  Bool, Bool-cases, Option, String, [], arith, false, filter, filter-append, if◌then◌else◌, inl,
  inr, leb, length-append, none, not, refl, true, ℕ, ◌++◌, ◌<◌, ◌∷◌, ◌≡◌, ◌≢◌, ◌≤◌, ◌⊎◌,
}
use poolpilot_relay.LanApi.Auth.{Reply, ok, refused}
use poolpilot_relay.LanApi.Pairing.{
  BrokerAnswer, Verdict, Voucher, active_count, add_device, admit, admitted, broker_failed,
  brokered, code_refused, device_cap, household_cap_reached, join_role, mark_used, over_cap,
  pair_join, pair_with_voucher, spend_voucher, verdict, verdict_reply, voucher_cap_reached,
  window_spent,
}
use poolpilot_relay.Prelude.Int.{ℤ}
use poolpilot_relay.State.Document.{Device, State, is_active}
use poolpilot_relay.State.Household.{paired}
use poolpilot_relay.Store.{Store, normalize}
use poolpilot_relay.Store.Cases.{update-cases}

-- The two ends of a pairing request: its device is the last one of the document and its window is
-- spent, or the devices and the mark are as they were.
pub data Outcome (dev : Device) (window : Option ℤ) (before after : State) (r : Reply)
    : Type 0 where
  admits :
      r ≡ ok
      → verdict window before ≡ admitted
      → after.devices ≡ before.devices ++ (dev ∷ [])
      → after.recovery_window_used ≡ mark_used window before.recovery_window_used
      → Outcome dev window before after r
  turns_away :
      r ≢ ok
      → after.devices ≡ before.devices
      → after.recovery_window_used ≡ before.recovery_window_used
      → Outcome dev window before after r

admit-Outcome :
    (dev : Device) (w : Option ℤ) (s : State)
    → Outcome dev w s (normalize (admit dev w s)) (verdict_reply (verdict w s))
unfolding normalize verdict_reply admit
admit-Outcome dev w s = by_verdict (verdict w s) refl
  where
    by_verdict :
        (v : Verdict)
        → verdict w s ≡ v
        → Outcome dev w s (normalize (admit dev w s)) (verdict_reply (verdict w s))
    by_verdict over_cap e = rw (e, admit) (turns_away (λ p. absurd (ground (arith, p))) refl refl)
    by_verdict window_spent e =
        rw (e, admit) (turns_away (λ p. absurd (ground (arith, p))) refl refl)
    by_verdict admitted e = rw (e, admit) (admits refl e refl refl)

add_device-Outcome :
    (persists : Bool) (dev : Device) (w : Option ℤ) (st : Store)
    → Outcome dev w st.doc (add_device persists dev w st).0.doc (add_device persists dev w st).1
unfolding add_device
add_device-Outcome persists dev w st = elim (update-cases persists (admit dev w) st) [
  | inl e ↦ rw (e, add_device) (admit-Outcome dev w st.doc)
  | inr (err, e) ↦ rw (e, add_device) (turns_away (λ p. absurd (ground (arith, p))) refl refl)
]

-- A branch that refuses before the update leaves the store alone.
refused-Outcome :
    (dev : Device) (w : Option ℤ) (status : ℕ) (code : String) (s : State)
    → Outcome dev w s s (refused status code)
refused-Outcome dev w status code s = turns_away (λ p. absurd (ground (arith, p))) refl refl

branch-Outcome :
    (b : Bool) (dev : Device) (w : Option ℤ) (s : State) (x y : Store × Reply)
    → Outcome dev w s x.0.doc x.1
    → Outcome dev w s y.0.doc y.1
    → Outcome dev w s (if b then x else y).0.doc (if b then x else y).1
branch-Outcome true dev w s x y h k = h
branch-Outcome false dev w s x y h k = k

-- The device with the role that the voucher gives it.
abbrev pub with_role : Device → (Voucher → String) → BrokerAnswer → Device
with_role dev role_for (brokered v) = record dev { role = role_for v }
with_role dev role_for _ = dev

spend_voucher-Outcome :
    (persists : Bool) (dev : Device) (answer : BrokerAnswer) (role_for : Voucher → String)
    (w : Option ℤ) (st : Store)
    → let (st', r) = spend_voucher persists dev answer role_for w st in
      Outcome (with_role dev role_for answer) w st.doc st'.doc r
unfolding spend_voucher
spend_voucher-Outcome persists dev household_cap_reached role_for w st =
    refused-Outcome _ w 409 _ st.doc
spend_voucher-Outcome persists dev voucher_cap_reached role_for w st =
    refused-Outcome _ w 409 _ st.doc
spend_voucher-Outcome persists dev code_refused role_for w st = refused-Outcome _ w 410 _ st.doc
spend_voucher-Outcome persists dev broker_failed role_for w st = refused-Outcome _ w 502 _ st.doc
spend_voucher-Outcome persists dev (brokered v) role_for w st = add_device-Outcome persists _ w st

pub pair_with_voucher-Outcome :
    (s : State) (persists : Bool) (dev : Device) (answer : BrokerAnswer)
    (role_for : Voucher → String) (w : Option ℤ) (st : Store)
    → let (st', r) = pair_with_voucher s persists dev answer role_for w st in
      Outcome (with_role dev role_for answer) w st.doc st'.doc r
unfolding pair_with_voucher
pair_with_voucher-Outcome s persists dev answer role_for w st =
    branch-Outcome (leb device_cap (active_count s)) _ w st.doc _ _
      (refused-Outcome _ w 409 _ st.doc) (spend_voucher-Outcome persists dev answer role_for w st)

pub pair_join-Outcome :
    (s : State) (persists : Bool) (dev : Device) (answer : BrokerAnswer) (st : Store)
    → let (st', r) = pair_join s persists dev answer st in
      Outcome (with_role dev join_role answer) none st.doc st'.doc r
unfolding pair_join
pair_join-Outcome s persists dev answer st =
    branch-Outcome (not (paired s)) _ none st.doc _ _ (refused-Outcome _ none 409 _ st.doc)
      (pair_with_voucher-Outcome s persists dev answer join_role none st)

-- Whatever the cap, a device that is let in leaves at most that many active ones.
admitted_below : (w : Option ℤ) (s : State) → verdict w s ≡ admitted → active_count s < device_cap
unfolding verdict
admitted_below w s e = elim (Bool-cases (leb device_cap (active_count s))) [
  | inl c ↦ absurd (ground (arith, e, c))
  | inr c ↦ ground (arith, c)
]

Outcome-count :
    (dev : Device) (w : Option ℤ) (s t : State) (r : Reply)
    → Outcome dev w s t r
    → active_count s ≤ device_cap
    → active_count t ≤ device_cap
Outcome-count dev w s t r (admits o v d m) h =
    rw
      (
        d,
        filter-append is_active s.devices (dev ∷ []),
        length-append (filter is_active s.devices) (filter is_active (dev ∷ [])),
      )
      (ground (arith, admitted_below w s v))
Outcome-count dev w s t r (turns_away o d m) h = rw (d) h

-- A join or a recovery, on any path and however stale the snapshot, keeps the active devices within
-- the cap, adds at most the one device that it minted, at the end, and removes none.
pub pair_with_voucher-WithinCap :
    (s : State) (persists : Bool) (dev : Device) (answer : BrokerAnswer)
    (role_for : Voucher → String) (w : Option ℤ) (st : Store)
    → active_count st.doc ≤ device_cap
    → let (st', r) = pair_with_voucher s persists dev answer role_for w st in
      (active_count st'.doc ≤ device_cap)
      × (((r ≡ ok) × (st'.doc.devices ≡ st.doc.devices ++ (with_role dev role_for answer ∷ [])))
          ⊎ ((r ≢ ok) × (st'.doc.devices ≡ st.doc.devices)))
pair_with_voucher-WithinCap s persists dev answer role_for w st h =
    let end = pair_with_voucher-Outcome s persists dev answer role_for w st in
    (Outcome-count _ w _ _ _ end h, ends end)
  where
    ends :
        {t : State} {r : Reply} {d : Device}
        → Outcome d w st.doc t r
        → ((r ≡ ok) × (t.devices ≡ st.doc.devices ++ (d ∷ [])))
          ⊎ ((r ≢ ok) × (t.devices ≡ st.doc.devices))
    ends (admits o v d m) = inl (o, d)
    ends (turns_away o d m) = inr (o, d)
