-- ===== src/LanApi/Devices/Owners.antt =====
-- Who is left after a removal.
use poolpilot_relay.Prelude.{
  Bool, Bool-cases, List, String, [], any, arith, eq_iff, eqb, false, filter, if◌then◌else◌, inl,
  inr, length, true, ℕ, ◌+◌, ◌-◌, ◌==◌, ◌∷◌, ◌≡◌, ◌≢◌, ◌≤◌,
}
use poolpilot_relay.Go.Time.{Time, is_zero}
use poolpilot_relay.LanApi.Auth.{ok}
use poolpilot_relay.LanApi.Devices.{
  delete_closure, delete_device, is_active_owner, is_last_active_owner, is_target, removal,
  removal_reply, revoke, revoke_first, revoked,
}
use poolpilot_relay.State.Document.{Device, State, is_active}
use poolpilot_relay.State.Removals.{queue_device_removal}
use poolpilot_relay.Store.{Store, normalize}
use poolpilot_relay.Store.Cases.{update-cases}

count_revoked :
    (id : String) (now : Time) (ds : List Device)
    → is_zero now ≡ false
    → any (is_target id) ds ≡ true
    → length (filter is_active (revoke_first id now ds)) + 1 ≡ length (filter is_active ds)
unfolding revoke_first is_target
count_revoked id now [] z h = absurd (ground (arith, h))
count_revoked id now (d ∷ ds) z h = ground (arith, z, h, count_revoked id now ds z)

owner_left :
    (id : String) (now : Time) (ds : List Device)
    → is_last_active_owner id ds ≡ false
    → any is_active_owner ds ≡ true
    → any is_active_owner (revoke_first id now ds) ≡ true
unfolding revoke_first is_target is_last_active_owner
owner_left id now [] h o = o
owner_left id now (d ∷ ds) h o = ground (arith, h, o, owner_left id now ds)

removal_ok :
    (tunnel : Bool) (caller id : String) (s : State)
    → removal_reply (removal tunnel caller id s) ≡ ok
    → removal tunnel caller id s ≡ revoked (length (filter is_active s.devices) - 1)
unfolding removal removal_reply
removal_ok tunnel caller id s h = ground (arith, h)

-- What the verdict has checked.
checked :
    (tunnel : Bool) (caller id : String) (s : State) (n : ℕ)
    → removal tunnel caller id s ≡ revoked n
    → (any (is_target id) s.devices ≡ true)
      × (tunnel ≡ true → 1 ≤ n)
      × (id ≢ caller → is_last_active_owner id s.devices ≡ false)
unfolding removal
checked tunnel caller id s n h =
    (ground (arith, h), λ t. ground (arith, h, t), λ d. ground (arith, h, d, eq_iff id caller))

module _ (sha256_hex : String → String) where
  -- The fields that a removal which goes through writes.
  pub revoke_lem :
      (id : String) (now : Time) (remaining : ℕ) (s : State)
      → let s' = normalize (revoke sha256_hex id now remaining s) in
        (s'.devices ≡ revoke_first id now s.devices)
        × (s'.ctrl_session_secret ≡ "")
        × (s'.controllers ≡ (if eqb remaining 0 then [] else s.controllers))
        × (s'.cloud ≡ s.cloud)
  unfolding revoke queue_device_removal normalize
  revoke_lem id now remaining s = ground arith

  -- What is known of the document once a removal was answered with success.
  pub removed :
      (tunnel : Bool) (caller id : String) (now : Time) (persists : Bool) (st : Store)
      → (delete_device sha256_hex tunnel caller id now persists st).1 ≡ ok
      → let remaining = length (filter is_active st.doc.devices) - 1 in
        (removal tunnel caller id st.doc ≡ revoked remaining)
        × ((delete_device sha256_hex tunnel caller id now persists st).0.doc
            ≡ normalize (revoke sha256_hex id now remaining st.doc))
  unfolding delete_device delete_closure
  removed tunnel caller id now persists st h = elim (Bool-cases (id == "")) [
    | inl b ↦ absurd (ground (arith, b, h))
    | inr b ↦ elim (update-cases persists (delete_closure sha256_hex tunnel caller id now) st) [
      | inr (x, e) ↦ absurd (ground (arith, b, h, e))
      | inl e ↦
          let answered_ok : removal_reply (removal tunnel caller id st.doc) ≡ ok =
            ground (arith, b, h, e) in
          let gone = removal_ok tunnel caller id st.doc answered_ok in
          (gone, rw (b, e, gone, delete_device, delete_closure))
    ]
  ]

  -- A removal that is answered with success ends exactly one device's access, and leaves another
  -- active device where the request came through the tunnel.
  pub delete_device-active :
      (tunnel : Bool) (caller id : String) (now : Time) (persists : Bool) (st : Store)
      → is_zero now ≡ false
      → (delete_device sha256_hex tunnel caller id now persists st).1 ≡ ok
      → let after = (delete_device sha256_hex tunnel caller id now persists st).0.doc in
        (length (filter is_active after.devices) + 1 ≡ length (filter is_active st.doc.devices))
        × (tunnel ≡ true → 1 ≤ length (filter is_active after.devices))
  delete_device-active tunnel caller id now persists st z h =
      let n = length (filter is_active st.doc.devices) - 1 in
      let (gone, e) = removed tunnel caller id now persists st h in
      let (target, over_tunnel, _) = checked tunnel caller id st.doc _ gone in
      let devices = (revoke_lem id now n st.doc).0 in
      let count = count_revoked id now st.doc.devices z target in
      rw (e, devices) (count, λ t. ground (arith, count, over_tunnel t))

  -- A device that removes another one leaves the household an active owner, if it had one.
  pub delete_device-owner :
      (tunnel : Bool) (caller id : String) (now : Time) (persists : Bool) (st : Store)
      → (delete_device sha256_hex tunnel caller id now persists st).1 ≡ ok
      → id ≢ caller
      → any is_active_owner st.doc.devices ≡ true
      → any is_active_owner
          (delete_device sha256_hex tunnel caller id now persists st).0.doc.devices
        ≡ true
  delete_device-owner tunnel caller id now persists st h d o =
      let n = length (filter is_active st.doc.devices) - 1 in
      let (gone, e) = removed tunnel caller id now persists st h in
      let (_, _, not_last) = checked tunnel caller id st.doc _ gone in
      rw (e, (revoke_lem id now n st.doc).0) (owner_left id now st.doc.devices (not_last d) o)
