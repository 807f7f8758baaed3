-- ===== src/Store/Cases.antt =====
-- The two ends of an update, for the handlers that answer by them.
use poolpilot_relay.Prelude.{Bool, Bool-cases, inl, inr, none, some, ◌≡◌, ◌⊎◌}
use poolpilot_relay.State.Document.{State}
use poolpilot_relay.Store.{Store, StoreError, err_wiped, normalize, persist_failed, update}

-- The update goes through, or fails and leaves the store as it was.
pub update-cases :
    (persists : Bool) (fn : State → State) (st : Store)
    → (update persists fn st
        ≡ (record st { doc = normalize (fn st.doc); disk = some (normalize (fn st.doc)) }, none))
      ⊎ ((e : StoreError) × (update persists fn st ≡ (st, some e)))
unfolding update
update-cases persists fn st = elim (Bool-cases st.wiped) [
  | inl e ↦ inr (err_wiped, rw (e, update))
  | inr e ↦ elim (Bool-cases persists) [
    | inl p ↦ inl (rw (e, p, update))
    | inr p ↦ inr (persist_failed, rw (e, p, update))
  ]
]
