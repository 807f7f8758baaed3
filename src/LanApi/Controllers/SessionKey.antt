-- ===== src/LanApi/Controllers/SessionKey.antt =====
-- internal/agent/lanapi/lanapi.go: racing requests for the key of the controller sessions.
use poolpilot_relay.Prelude.{
  Bool, Bool-cases, Option, String, ap, arith, false, inl, inr, none, refl, some, subst, sym, true,
  ◌==◌, ◌∙◌, ◌≡◌, ◌⊎◌,
}
use poolpilot_relay.Go.Time.{after}
use poolpilot_relay.LanApi.Controllers.{ensure_ctrl_session_key, keep_secret}
use poolpilot_relay.State.Document.{State}
use poolpilot_relay.Store.{Store, normalize}
use poolpilot_relay.Store.Cases.{update-cases}

-- A snapshot read before the update: its key is absent, or the one that the store still holds.
abbrev pub IsSnapshot : State → Store → Type 0
IsSnapshot snapshot st =
    ((snapshot.ctrl_session_secret == "") ≡ true)
    ⊎ (snapshot.ctrl_session_secret ≡ st.doc.ctrl_session_secret)

-- A nonempty key that the store holds, and held before unless it held none.
abbrev IsHeld : String → Store → Store → Type 0
IsHeld k st st' =
    (st'.doc.ctrl_session_secret ≡ k)
    × ((k == "") ≡ false)
    × ((st.doc.ctrl_session_secret == "") ≡ false → st.doc.ctrl_session_secret ≡ k)

keep_secret-nonempty :
    (minted : String) (s : State)
    → (minted == "") ≡ false
    → ((keep_secret minted s).ctrl_session_secret == "") ≡ false
unfolding keep_secret
keep_secret-nonempty minted s m = elim (Bool-cases (s.ctrl_session_secret == "")) [
  | inl e ↦ rw (e, m) refl
  | inr e ↦ rw (e, e) refl
]

keep_secret_same :
    (minted : String) (s : State)
    → (s.ctrl_session_secret == "") ≡ false
    → s.ctrl_session_secret ≡ (keep_secret minted s).ctrl_session_secret
unfolding keep_secret
keep_secret_same minted s e = rw e refl

-- What a call must leave when it hands out a key.
abbrev Held : Store → Store × Option String → Type 0
Held st (st', none) = Unit
Held st (st', some k) = IsHeld k st st'

ensure_known :
    (snapshot : State) (persists : Bool) (minted : String) (st : Store)
    → (snapshot.ctrl_session_secret == "") ≡ false
    → ensure_ctrl_session_key snapshot persists minted st ≡ (st, some snapshot.ctrl_session_secret)
unfolding ensure_ctrl_session_key
ensure_known snapshot persists minted st e = rw e refl

known-Held :
    (snapshot : State) (st : Store)
    → (snapshot.ctrl_session_secret == "") ≡ false
    → IsSnapshot snapshot st
    → IsHeld snapshot.ctrl_session_secret st st
known-Held snapshot st e (inl gone) = absurd (ground (arith, gone, e))
known-Held snapshot st e (inr same) = (sym same, e, λ _. sym same)

ensure-Held :
    (snapshot : State) (persists : Bool) (minted : String) (st : Store)
    → (minted == "") ≡ false
    → IsSnapshot snapshot st
    → Held st (ensure_ctrl_session_key snapshot persists minted st)
unfolding ensure_ctrl_session_key normalize
ensure-Held snapshot persists minted st m snap =
    elim (Bool-cases (snapshot.ctrl_session_secret == "")) [
      | inr e ↦
          subst (Held st) (sym (ensure_known snapshot persists minted st e))
            (known-Held snapshot st e snap)
      | inl e ↦ elim (update-cases persists (keep_secret minted) st) [
        | inl went ↦
            rw (e, went)
              (refl, keep_secret-nonempty minted st.doc m, keep_secret_same minted st.doc)
        | inr (x, failed) ↦ rw (e, failed) tt
      ]
    ]

-- Two requests that each hand out a session key, the second after any calls that leave the stored
-- key as it is, with snapshots whose key is absent or the one the store still holds and nonempty
-- minted keys, hand out the same key: it is nonempty and the one the store holds in the end.
pub racing_keys_agree :
    (snapshot snapshot' : State) (persists persists' : Bool) (minted minted' : String)
    (st st' between after : Store) (k k' : String)
    → (minted == "") ≡ false
    → (minted' == "") ≡ false
    → IsSnapshot snapshot st
    → ensure_ctrl_session_key snapshot persists minted st ≡ (st', some k)
    → between.doc.ctrl_session_secret ≡ st'.doc.ctrl_session_secret
    → IsSnapshot snapshot' between
    → ensure_ctrl_session_key snapshot' persists' minted' between ≡ (after, some k')
    → (k ≡ k') × (after.doc.ctrl_session_secret ≡ k) × ((k == "") ≡ false)
racing_keys_agree snapshot snapshot' persists persists' minted minted' st st' between after k k' m
      m' snap r keeps snap' r' =
    let (h, n, _) = subst (Held st) r (ensure-Held snapshot persists minted st m snap) in
    let (h', _, same) =
      subst (Held between) r' (ensure-Held snapshot' persists' minted' between m' snap') in
    let held = keeps ∙ h in
    let agree = sym held ∙ same (ap (λ x. x == "") held ∙ n) in (agree, h' ∙ sym agree, n)
