-- ===== src/Store/Wiped.antt =====
-- Histories of a wiped store, and the store that an opening yields.
use poolpilot_relay.Prelude.{
  Bool, Bool-cases, List, String, [], all, any, ap, arith, eq_iff, false, inl, inr, none, refl,
  some, subst, sym, true, ◌==◌, ◌∙◌, ◌∷◌, ◌≡◌, ◌≢◌, ◌⊎◌,
}
use poolpilot_relay.State.Document.{Device, State, fresh_state}
use poolpilot_relay.State.Household.{reset_household}
use poolpilot_relay.State.Migrate.{migrate_v1_to_v2}
use poolpilot_relay.State.Roles.{infer_legacy_roles, lacks_role}
use poolpilot_relay.State.Roles.Inferred.{has_role, infer_legacy_roles_lem}
use poolpilot_relay.Store.{
  StateFile, Store, adopt, after_drop, corrupt, drop_household_if, err_wiped, holds_token, missing,
  open_store, opened, unreadable, unsupported, update, update_if_token, update_when, v1, v2, wipe,
}
use poolpilot_relay.Store.Consistent.{
  IsConsistent, Reach, Reach-IsConsistent, dead, drops_if, here, live, updates, updates_if, wipes,
}

update-wiped :
    (persists : Bool) (fn : State → State) (st : Store)
    → st.wiped ≡ true
    → update persists fn st ≡ (st, some err_wiped)
unfolding update
update-wiped persists fn st w = rw (w, update)

wipe-wiped :
    (removes sweeps : Bool) (st : Store) → st.wiped ≡ true → (wipe removes sweeps st).0.wiped ≡ true
unfolding wipe
wipe-wiped true sweeps st w = refl
wipe-wiped false sweeps st w = w

when-wiped :
    (still : State → Bool) (persists : Bool) (fn : State → State) (t st : Store)
    → st.wiped ≡ true
    → update_when still persists fn (λ _. t) st ≡ (st, false, none)
unfolding update_when
when-wiped still persists fn t st w = rw (w, update_when)

if-wiped :
    (token : String) (persists : Bool) (fn : State → State) (t st : Store)
    → st.wiped ≡ true
    → (update_if_token token persists fn (λ _. t) st).0.wiped ≡ true
unfolding update_if_token
if-wiped token persists fn t st w = elim (Bool-cases (token == "")) [
  | inl e ↦ rw (e, update_if_token) w
  | inr e ↦ rw (e, update_if_token, when-wiped (holds_token token) persists fn t st w) w
]

drop-wiped :
    (still : State → Bool) (persists sweeps : Bool) (t st : Store)
    → st.wiped ≡ true
    → (drop_household_if still persists sweeps (λ _. t) st).0.wiped ≡ true
unfolding drop_household_if after_drop
drop-wiped still persists sweeps t st w = rw (when-wiped still persists reset_household t st w) w

-- After a factory reset no call brings the document back: the store stays wiped and, starting from
-- a store whose file and memory agree, its file stays gone.
pub Reach-wiped :
    {st s : Store}
    → IsConsistent st
    → st.wiped ≡ true
    → Reach st s
    → (s.wiped ≡ true) × (s.disk ≡ none)
Reach-wiped {st} {s} c w r = (stays w r, gone (stays w r) (Reach-IsConsistent c r))
  where
    stays : {a b : Store} → a.wiped ≡ true → Reach a b → b.wiped ≡ true
    stays w here = w
    stays w (updates persists fn {s} r) = rw (update-wiped persists fn s (stays w r)) (stays w r)
    stays w (wipes removes sweeps {s} r) = wipe-wiped removes sweeps s (stays w r)
    stays w (updates_if token persists fn {s} {t} r u) = if-wiped token persists fn t s (stays w r)
    stays w (drops_if still persists sweeps {s} {t} r u) =
        drop-wiped still persists sweeps t s (stays w r)

    gone : {a : Store} → a.wiped ≡ true → IsConsistent a → a.disk ≡ none
    gone w (live l d) = absurd (ground arith)
    gone w (dead _ d) = d

-- What opening promises.
pub record IsOpened (st : Store) : Type 0 where
  pub consistent : IsConsistent st
  pub usable : st.wiped ≡ false
  pub named : st.doc.agent_id ≢ ""
  pub roles : all has_role st.doc.devices ≡ true

settled_roles : (ds : List Device) → any lacks_role ds ≡ false → all has_role ds ≡ true
settled_roles [] h = refl
settled_roles (d ∷ ds) h = ground (arith, settled_roles ds)

inferred-agent_id : (s : State) → (infer_legacy_roles s).0.agent_id ≡ s.agent_id
unfolding infer_legacy_roles
inferred-agent_id s = refl

adopt-doc :
    (persists copies : Bool) (s : State) (st : Store)
    → adopt persists copies s ≡ inl st
    → (s.agent_id ≢ "")
      × (st.wiped ≡ false)
      × (st.disk ≡ some st.doc)
      × (((st.doc ≡ s) × ((infer_legacy_roles s).1 ≡ false)) ⊎ (st.doc ≡ (infer_legacy_roles s).0))
unfolding adopt
adopt-doc persists copies s st e =
    (ground (arith, eq_iff s.agent_id ""), ground arith, ground arith, ground arith)

adopt-IsOpened :
    (persists copies : Bool) (s : State) (st : Store)
    → adopt persists copies s ≡ inl st
    → IsOpened st
adopt-IsOpened persists copies s st e =
    let inferred = infer_legacy_roles_lem s in
    let (named, usable, saved, doc) = adopt-doc persists copies s st e in
    elim doc [
      | inl (same, unchanged) ↦ record {
        consistent = live usable saved;
        usable = usable;
        named = λ n. named (sym (ap (λ d. d.agent_id) same) ∙ n);
        roles = rw same (settled_roles s.devices (sym inferred.2 ∙ unchanged));
      }
      | inr same ↦ record {
        consistent = live usable saved;
        usable = usable;
        named = λ n. named (sym (inferred-agent_id s) ∙ sym (ap (λ d. d.agent_id) same) ∙ n);
        roles = rw same inferred.0;
      }
    ]

fresh-IsOpened :
    (new_id : String) (copies : Bool)
    → new_id ≢ ""
    → IsOpened (opened (fresh_state new_id) (some (fresh_state new_id)) copies)
unfolding fresh_state
fresh-IsOpened new_id copies named = record {
  consistent = live refl refl;
  usable = refl;
  named = named;
  roles = refl;
}

-- A store that opens holds a document that is also in its file, is not wiped, has an agent id, and
-- every active device in it has a role, whatever the file held; `new_id` is the id that is minted
-- for a fresh agent, and is not empty.
pub open_store_lem :
    (persists adopts backs_up : Bool) (new_id : String) (copies : Bool) (file : StateFile)
    (st : Store)
    → new_id ≢ ""
    → open_store persists adopts backs_up new_id copies file ≡ inl st
    → IsOpened st
unfolding open_store
open_store_lem false adopts backs_up new_id copies missing st named e = absurd (ground arith)
open_store_lem true adopts backs_up new_id copies missing st named e =
    subst IsOpened (ground arith) (fresh-IsOpened new_id copies named)
open_store_lem persists adopts backs_up new_id copies unreadable st named e = absurd (ground arith)
open_store_lem persists adopts backs_up new_id copies corrupt st named e = absurd (ground arith)
open_store_lem persists adopts backs_up new_id copies (v1 old) st named e =
    adopt-IsOpened adopts true (migrate_v1_to_v2 new_id old) st (ground arith)
open_store_lem persists adopts backs_up new_id copies (v2 s) st named e =
    adopt-IsOpened adopts copies s st e
open_store_lem persists adopts backs_up new_id copies (unsupported n) st named e =
    absurd (ground arith)
