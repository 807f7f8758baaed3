-- ===== src/Update/Agent/Choice.antt =====
-- Which release the agent offers and installs.
use poolpilot_relay.Prelude.{
  Bool, Bool-cases, Option, String, arith, eq_iff, false, inl, inr, refl, sym, true, ◌↔◌, ◌≡◌, ◌≢◌,
  ◌⊎◌,
}
use poolpilot_relay.Go.Text.{codes}
use poolpilot_relay.Prelude.Int.{ℤ}
use poolpilot_relay.State.Document.{State}
use poolpilot_relay.State.Household.{enrolled}
use poolpilot_relay.Store.{Store, normalize}
use poolpilot_relay.Store.Cases.{update-cases}
use poolpilot_relay.Update.Agent.{
  Updater, apply_update, available_of, check, checked, clears_block, ingest, is_candidate,
  note_check, offered, starts_stage,
}
use poolpilot_relay.Update.Version.{newer}
use poolpilot_relay.Wire.Updates.{UpdateAdvisory, UpdateResult}

-- A download starts exactly for the known version where the updater is on, that version is newer
-- than the one that runs and not the one that was rolled back, and neither a download nor a request
-- is under way.
pub apply_update_iff :
    (request_exists : Bool) (s : State) (u : Updater) (v : String)
    → (apply_update request_exists s u ≡ starts_stage v) ↔ (
        (s.update.last_available ≡ v)
        × (v ≢ "")
        × (u.disabled ≡ false)
        × (newer (codes v) (codes u.version) ≡ true)
        × (v ≢ s.update.bad_version)
        × (u.staging ≡ false)
        × (request_exists ≡ false))
unfolding apply_update is_candidate
apply_update_iff request_exists s u v = (
  λ h. ground (
    arith,
    h,
    eq_iff s.update.last_available "",
    eq_iff s.update.last_available s.update.bad_version,
  ),
  λ h. ground (
    arith,
    h,
    eq_iff s.update.last_available "",
    eq_iff s.update.last_available s.update.bad_version,
  ),
)

-- Once the helper's result says that a version was rolled back, that version is not offered, no
-- download of it starts, and a check-in that names it as the target does not make it available.
pub rolled_back_blocked :
    (r : UpdateResult) (s : State) (u : Updater) (request_exists : Bool)
    → r.status ≡ "rolled_back"
    → r.to ≢ ""
    → let s' = ingest r s in
      (offered s' ≢ r.to)
      × (apply_update request_exists s' u ≢ starts_stage r.to)
      × (available_of u s' r.to ≡ "")
unfolding ingest offered is_candidate
rolled_back_blocked r s u request_exists b t =
    let bad : (ingest r s).update.bad_version ≡ r.to =
      ground (arith, b, eq_iff r.status "rolled_back", t, eq_iff r.to "") in
    (
      ground (arith, bad, t, eq_iff s.update.last_available (ingest r s).update.bad_version),
      λ h. (((apply_update_iff request_exists (ingest r s) u r.to).0 h).4 (sym bad)),
      ground (arith, bad, eq_iff r.to (ingest r s).update.bad_version),
    )

not_blocked :
    (u : Updater) (seen : State) (target bad : String)
    → seen.update.bad_version ≡ bad
    → bad ≢ ""
    → available_of u seen target ≢ bad
unfolding is_candidate
not_blocked u seen target bad e b h =
    ground (arith, e, b, h, eq_iff target "", eq_iff target seen.update.bad_version)

noted_block :
    (available now : String) (advisory : Option UpdateAdvisory) (d : State)
    → d.update.bad_version ≢ ""
    → let after = normalize (note_check available advisory now d) in
      (after.update.last_available ≡ available)
      × ((after.update.bad_version ≡ d.update.bad_version)
          ⊎ ((after.update.bad_version ≡ "")
              × (newer (codes available) (codes d.update.bad_version) ≡ true)))
unfolding note_check normalize
noted_block available now advisory d b =
    elim (Bool-cases (clears_block available d.update.bad_version)) [
      | inl e ↦ (refl, inr (ground (arith, e), ground (arith, e)))
      | inr e ↦ (refl, inl (ground (arith, e)))
    ]

-- A version that was rolled back stays blocked by a check-in, unless the check-in makes a version
-- available that is strictly newer than it; either way the blocked one does not become available.
pub check_keeps_block :
    (s seen : State) (target now : String) (recheck : ℤ) (advisory : Option UpdateAdvisory)
    (persists : Bool) (u : Updater) (st : Store)
    → seen.update.bad_version ≡ st.doc.update.bad_version
    → st.doc.update.bad_version ≢ ""
    → st.doc.update.last_available ≢ st.doc.update.bad_version
    → let bad = st.doc.update.bad_version in
      let after = (check s seen (checked target recheck advisory) now persists u st).store.doc in
      (after.update.last_available ≢ bad)
      × ((after.update.bad_version ≡ bad)
          ⊎ ((after.update.bad_version ≡ "")
              × (newer (codes after.update.last_available) (codes bad) ≡ true)))
unfolding check
check_keeps_block s seen target now recheck advisory persists u st e b o =
    elim (Bool-cases (enrolled s)) [
      | inr n ↦ rw (n, check) (o, inl refl)
      | inl n ↦
          elim (update-cases persists (note_check (available_of u seen target) advisory now) st) [
            | inr (x, f) ↦ rw (n, f, check) (o, inl refl)
            | inl f ↦
                let (available, block) =
                  noted_block (available_of u seen target) now advisory st.doc b in
                rw (n, f, available, check)
                  (not_blocked u seen target st.doc.update.bad_version e b, block)
          ]
    ]
