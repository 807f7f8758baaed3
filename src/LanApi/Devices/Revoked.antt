-- ===== src/LanApi/Devices/Revoked.antt =====
-- Whom a bearer token stands for after a removal.
use poolpilot_relay.Prelude.{
  Bool, List, Option, String, [], any, ap, arith, eq_iff, false, filter, length, refl, some, true,
  ℕ, ◌-◌, ◌↔◌, ◌∙◌, ◌∷◌, ◌≡◌, ◌≢◌, ◌≤◌,
}
use poolpilot_relay.Go.Time.{Time, is_zero}
use poolpilot_relay.LanApi.Auth.{device_for_bearer, find_bearer, ok}
use poolpilot_relay.LanApi.Devices.{delete_device, is_target, revoke_first}
use poolpilot_relay.LanApi.Devices.Owners.{removed, revoke_lem}
use poolpilot_relay.State.Document.{Device, State, is_active}
use poolpilot_relay.State.Household.{active_devices, paired}
use poolpilot_relay.Store.{Store}

-- At most one active device has the id.
abbrev pub IsUnique : String → List Device → Type 0
IsUnique id ds = length (filter (is_target id) ds) ≤ 1

none_left :
    (id : String) (ds : List Device)
    → length (filter (is_target id) ds) ≤ 0
    → any (is_target id) ds ≡ false
none_left id [] h = refl
none_left id (d ∷ ds) h = ground (arith, h, none_left id ds)

not_target :
    (id : String) (now : Time) (ds : List Device)
    → is_zero now ≡ false
    → IsUnique id ds
    → any (is_target id) (revoke_first id now ds) ≡ false
unfolding revoke_first is_target
not_target id now [] z u = refl
not_target id now (d ∷ ds) z u = ground (arith, z, u, not_target id now ds, none_left id ds)

module _ (sha256 : String → List ℕ) (unhex : String → Option (List ℕ)) where
  -- The devices that a search among the active ones comes to.
  found_active :
      (token id : String) (ds : List Device) (d : Device)
      → any (is_target id) ds ≡ false
      → find_bearer sha256 unhex token (filter is_active ds) ≡ some d
      → d.id ≢ id
  unfolding find_bearer is_target
  found_active token id [] d u h = absurd (ground (arith, h))
  found_active token id (x ∷ ds) d u h =
      ground (arith, u, h, found_active token id ds d, eq_iff x.id id)

  still_found :
      (token id : String) (now : Time) (ds : List Device) (d : Device)
      → find_bearer sha256 unhex token (filter is_active ds) ≡ some d
      → d.id ≢ id
      → is_zero now ≡ false
      → find_bearer sha256 unhex token (filter is_active (revoke_first id now ds)) ≡ some d
  unfolding find_bearer revoke_first is_target
  still_found token id now [] d h n z = h
  still_found token id now (x ∷ ds) d h n z =
      ground (arith, h, n, z, still_found token id now ds d, eq_iff x.id id)

  -- Where a search finds somebody, the household is paired.
  found_paired :
      (token : String) (ds : List Device) (d : Device)
      → find_bearer sha256 unhex token (filter is_active ds) ≡ some d
      → any is_active ds ≡ true
  unfolding find_bearer
  found_paired token [] d h = absurd (ground (arith, h))
  found_paired token (x ∷ ds) d h = ground (arith, h, found_paired token ds d)

  bearer_found :
      (s : State) (token : String) (d : Device)
      → (device_for_bearer sha256 unhex s token ≡ some d)
        ↔ ((token ≢ "") × (find_bearer sha256 unhex token (filter is_active s.devices) ≡ some d))
  unfolding device_for_bearer paired active_devices
  bearer_found s token d = (
    λ h. (ground (arith, h, eq_iff token ""), ground (arith, h)),
    λ (n, h). ground (arith, n, h, eq_iff token "", found_paired token s.devices d h),
  )

  -- After a removal that is answered with success, where the id was one active device's, no token
  -- stands for a device of that id any more, every token that stood for another device stands for
  -- it still, and the secret of the controller sessions is gone.
  pub delete_device-bearers :
      (sha256_hex : String → String) (tunnel : Bool) (caller id : String) (now : Time)
      (persists : Bool) (st : Store)
      → is_zero now ≡ false
      → IsUnique id st.doc.devices
      → (delete_device sha256_hex tunnel caller id now persists st).1 ≡ ok
      → let after = (delete_device sha256_hex tunnel caller id now persists st).0.doc in
        ((token : String) (d : Device)
          → device_for_bearer sha256 unhex after token ≡ some d
          → d.id ≢ id)
        × ((token : String) (d : Device)
            → device_for_bearer sha256 unhex st.doc token ≡ some d
            → d.id ≢ id
            → device_for_bearer sha256 unhex after token ≡ some d)
        × (after.ctrl_session_secret ≡ "")
  delete_device-bearers sha256_hex tunnel caller id now persists st z u h =
      let n = length (filter is_active st.doc.devices) - 1 in
      let (gone, e) = removed sha256_hex tunnel caller id now persists st h in
      let (devices, secret, _, _) = revoke_lem sha256_hex id now n st.doc in
      let after = (delete_device sha256_hex tunnel caller id now persists st).0.doc in
      let same : after.devices ≡ revoke_first id now st.doc.devices =
        ap (λ s. s.devices) e ∙ devices in
      (
        λ token d f.
            found_active token id after.devices d (rw (same) (not_target id now st.doc.devices z u))
              ((bearer_found after token d).0 f).1,
        λ token d f other. (bearer_found after token d).1 (
          ((bearer_found st.doc token d).0 f).0,
          rw (same) (
              still_found token id now st.doc.devices d ((bearer_found st.doc token d).0 f).1 other
                z),
        ),
        ap (λ s. s.ctrl_session_secret) e ∙ secret,
      )
