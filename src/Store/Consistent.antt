-- ===== src/Store/Consistent.antt =====
-- Memory and disk: what holds after any history of calls.
use poolpilot_relay.Prelude.{
  Bool, Bool-cases, Option, String, arith, false, inl, inr, none, not, refl, some, true, ◌==◌, ◌||◌,
  ◌≡◌,
}
use poolpilot_relay.State.Document.{State}
use poolpilot_relay.State.Household.{reset_household}
use poolpilot_relay.Store.{
  Store, StoreError, after_drop, drop_household_if, holds_token, update, update_if_token,
  update_when, wipe,
}

-- A live store's file holds the document in memory; a wiped store has no file.
pub data IsConsistent (st : Store) : Type 0 where
  live : st.wiped ≡ false → st.disk ≡ some st.doc → IsConsistent st
  dead : st.wiped ≡ true → st.disk ≡ none → IsConsistent st

-- The stores that calls lead to. The calls that release the lock in between see whatever other
-- calls led to meanwhile.
pub data Reach : Store → Store → Type 0 where
  here : {st : Store} → Reach st st
  updates :
      (persists : Bool) (fn : State → State) {st s : Store}
      → Reach st s
      → Reach st (update persists fn s).0
  wipes : (removes sweeps : Bool) {st s : Store} → Reach st s → Reach st (wipe removes sweeps s).0
  updates_if :
      (token : String) (persists : Bool) (fn : State → State) {st s t : Store}
      → Reach st s
      → Reach s t
      → Reach st (update_if_token token persists fn (λ _. t) s).0
  drops_if :
      (still : State → Bool) (persists sweeps : Bool) {st s t : Store}
      → Reach st s
      → Reach s t
      → Reach st (drop_household_if still persists sweeps (λ _. t) s).0

update-IsConsistent :
    (persists : Bool) (fn : State → State) (st : Store)
    → IsConsistent st
    → IsConsistent (update persists fn st).0
unfolding update
update-IsConsistent persists fn st (live w d) = grind (arith, live, dead)
update-IsConsistent persists fn st (dead w d) = grind (arith, live, dead)

wipe-IsConsistent :
    (removes sweeps : Bool) (st : Store) → IsConsistent st → IsConsistent (wipe removes sweeps st).0
unfolding wipe
wipe-IsConsistent true sweeps st c = dead refl refl
wipe-IsConsistent false sweeps st c = c

update_when-IsConsistent :
    (still : State → Bool) (persists : Bool) (fn : State → State) (t st : Store)
    → IsConsistent t
    → IsConsistent st
    → IsConsistent (update_when still persists fn (λ _. t) st).0
unfolding update_when
update_when-IsConsistent still persists fn t st ct c =
    elim (Bool-cases (st.wiped || not (still st.doc))) [
      | inl e ↦ rw (e, update_when) c
      | inr e ↦ rw (e, update_when) (update-IsConsistent persists _ t ct)
    ]

update_if-IsConsistent :
    (token : String) (persists : Bool) (fn : State → State) (t st : Store)
    → IsConsistent t
    → IsConsistent st
    → IsConsistent (update_if_token token persists fn (λ _. t) st).0
unfolding update_if_token
update_if-IsConsistent token persists fn t st ct c = elim (Bool-cases (token == "")) [
  | inl e ↦ rw (e, update_if_token) c
  | inr e ↦
      rw (e, update_if_token) (update_when-IsConsistent (holds_token token) persists fn t st ct c)
]

-- Removing other copies of the document changes neither the document nor its file.
same-IsConsistent :
    (st : Store) (copies : Bool)
    → IsConsistent st
    → IsConsistent (record st { stale_copies = copies })
same-IsConsistent st copies (live w d) = live w d
same-IsConsistent st copies (dead w d) = dead w d

after_drop-IsConsistent :
    (sweeps : Bool) (st : Store) (applied : Bool) (e : Option StoreError)
    → IsConsistent st
    → IsConsistent (after_drop sweeps st applied e).0
unfolding after_drop
after_drop-IsConsistent sweeps st applied (some e) c = c
after_drop-IsConsistent sweeps st false none c = c
after_drop-IsConsistent sweeps st true none c = same-IsConsistent st _ c

drop_if-IsConsistent :
    (still : State → Bool) (persists sweeps : Bool) (t st : Store)
    → IsConsistent t
    → IsConsistent st
    → IsConsistent (drop_household_if still persists sweeps (λ _. t) st).0
unfolding drop_household_if
drop_if-IsConsistent still persists sweeps t st ct c =
    after_drop-IsConsistent sweeps _ _ _
      (update_when-IsConsistent still persists reset_household t st ct c)

-- Whatever is called, in whatever order and with whatever failures of the file system, a live
-- store's file holds exactly the document in memory, and a wiped store has no file.
pub Reach-IsConsistent : {st s : Store} → IsConsistent st → Reach st s → IsConsistent s
Reach-IsConsistent c here = c
Reach-IsConsistent c (updates persists fn r) =
    update-IsConsistent persists fn _ (Reach-IsConsistent c r)
Reach-IsConsistent c (wipes removes sweeps r) =
    wipe-IsConsistent removes sweeps _ (Reach-IsConsistent c r)
Reach-IsConsistent c (updates_if token persists fn {s} {t} r u) =
    let cs = Reach-IsConsistent c r in
    update_if-IsConsistent token persists fn t s (Reach-IsConsistent cs u) cs
Reach-IsConsistent c (drops_if still persists sweeps {s} {t} r u) =
    let cs = Reach-IsConsistent c r in
    drop_if-IsConsistent still persists sweeps t s (Reach-IsConsistent cs u) cs
