-- ===== src/Store.antt =====
-- internal/agent/state/state.go: the store that owns the document. Each method runs under the
-- store's lock, so a history is a sequence of calls; where a method releases the lock in between,
-- what others did meanwhile is an argument. The file system answers by arguments too: `persists`
-- is whether writing the temporary file and renaming it over the target succeeds.
pub mod Consistent
pub mod Wiped
pub mod Bound
pub mod Cases
use poolpilot_relay.Prelude.{
  Bool, Option, String, false, if◌then◌else◌, inl, inr, is_some, none, not, some, true, ◌&&◌, ◌==◌,
  ◌||◌, ◌⊎◌,
}
use poolpilot_relay.Prelude.Int.{ℤ}
use poolpilot_relay.State.Document.{State, fresh_state, schema_version}
use poolpilot_relay.State.Household.{reset_household}
use poolpilot_relay.State.Migrate.{StateV1, migrate_v1_to_v2}
use poolpilot_relay.State.Removals.{cap_outbox, cap_pending_removals}
use poolpilot_relay.State.Roles.{infer_legacy_roles}

pub data StoreError : Type 0 where
  err_wiped persist_failed remove_failed : StoreError

pub record Store : Type 0 where
  pub doc : State
  pub wiped : Bool
  -- The document at the store's path, if there is a file.
  pub disk : Option State
  -- Whether older copies of the document lie beside it.
  pub stale_copies : Bool

-- What Update makes of the document that the closure leaves.
unfoldable pub normalize : State → State
normalize s = record s {
  version = schema_version;
  outbox = cap_outbox s.outbox;
  pending_device_removals = cap_pending_removals s.pending_device_removals;
}

-- `Update(fn)`: the rename is atomic, so a failed write leaves the old file.
unfoldable pub update : Bool → (State → State) → Store → Store × Option StoreError
update persists fn st =
    let next = normalize (fn st.doc) in
    if st.wiped
    then (st, some err_wiped)
    else if persists
    then (record st { doc = next; disk = some next }, none)
    else (st, some persist_failed)

-- `Wipe()`: `removes` is whether the file is gone afterwards, `sweeps` whether the best-effort
-- removal of the other copies succeeds.
unfoldable pub wipe : Bool → Bool → Store → Store × Option StoreError
wipe removes sweeps st = if not removes then (st, some remove_failed) else (
  record st { wiped = true; disk = none; stale_copies = st.stale_copies && not sweeps },
  none,
)

-- The shape of `UpdateIfToken` and `DropHouseholdIf`: a check under the lock, then, with the lock
-- released and taken again, an update whose closure checks once more. `meanwhile` is what other
-- callers did in between. The result says whether the closure ran `fn`, and with which error the
-- update came back.
unfoldable pub update_when :
    (State → Bool)
    → Bool
    → (State → State)
    → (Store → Store)
    → Store
    → Store × Bool × Option StoreError
update_when still persists fn meanwhile st =
    let st' = meanwhile st in
    let (st'', e) = update persists (λ s. if still s then fn s else s) st' in
    if st.wiped || not (still st.doc)
    then (st, false, none)
    else (st'', not st'.wiped && still st'.doc, e)

abbrev pub holds_token : String → State → Bool
holds_token token s = s.cloud.frpc_token == token

-- `UpdateIfToken(token, fn)`: with an error it reports that nothing was applied.
unfoldable pub update_if_token :
    String → Bool → (State → State) → (Store → Store) → Store → Store × Bool × Option StoreError
unfolding update_when
update_if_token token persists fn meanwhile st =
    let (st', applied, e) = update_when (holds_token token) persists fn meanwhile st in
    if token == "" then (st, false, none) else (st', applied && not (is_some e), e)

-- The end of `DropHouseholdIf`: after a drop the other copies on disk are removed, best effort.
unfoldable pub after_drop :
    Bool → Store → Bool → Option StoreError → Store × Bool × Option StoreError
after_drop sweeps st applied (some e) = (st, applied, some e)
after_drop sweeps st false none = (st, false, none)
after_drop sweeps st true none =
    (record st { stale_copies = st.stale_copies && not sweeps }, true, none)

-- `DropHouseholdIf(still)`.
unfoldable pub drop_household_if :
    (State → Bool) → Bool → Bool → (Store → Store) → Store → Store × Bool × Option StoreError
unfolding update_when after_drop
drop_household_if still persists sweeps meanwhile st =
    let (st', applied, e) = update_when still persists reset_household meanwhile st in
    after_drop sweeps st' applied e

unfoldable pub drop_household :
    String → Bool → Bool → (Store → Store) → Store → Store × Bool × Option StoreError
unfolding drop_household_if
drop_household token persists sweeps meanwhile st =
    let dropped = drop_household_if (holds_token token) persists sweeps meanwhile st in
    if token == "" then (st, false, none) else dropped

-- What the state file holds when the agent starts.
pub data StateFile : Type 0 where
  missing unreadable corrupt : StateFile
  v1 : StateV1 → StateFile
  v2 : State → StateFile
  unsupported : ℤ → StateFile

pub data OpenError : Type 0 where
  read_failed corrupt_file missing_agent_id backup_failed not_persisted : OpenError
  unsupported_version : ℤ → OpenError

abbrev pub opened : State → Option State → Bool → Store
opened doc disk copies = record { doc = doc; wiped = false; disk = disk; stale_copies = copies }

-- The last part of `Open`: the agent id, and the roles.
unfoldable pub adopt : Bool → Bool → State → Store ⊎ OpenError
adopt persists copies s =
    let (s', changed) = infer_legacy_roles s in
    if s.agent_id == ""
    then inr missing_agent_id
    else if not changed
    then inl (opened s (some s) copies)
    else if persists
    then inl (opened s' (some s') copies)
    else inr not_persisted

-- `Open(path)`: `persists` is whether the fresh or migrated document can be written, `adopts`
-- whether the one with inferred roles can, and `backs_up` whether the first schema's document can
-- be copied beside it.
unfoldable pub open_store : Bool → Bool → Bool → String → Bool → StateFile → Store ⊎ OpenError
unfolding adopt
open_store persists adopts backs_up new_id copies missing =
    if persists
    then inl (opened (fresh_state new_id) (some (fresh_state new_id)) copies)
    else inr not_persisted
open_store persists adopts backs_up new_id copies unreadable = inr read_failed
open_store persists adopts backs_up new_id copies corrupt = inr corrupt_file
open_store persists adopts backs_up new_id copies (v1 old) =
    if old.agent_id == ""
    then inr missing_agent_id
    else if not backs_up
    then inr backup_failed
    else if not persists
    then inr not_persisted
    else adopt adopts true (migrate_v1_to_v2 new_id old)
open_store persists adopts backs_up new_id copies (v2 s) = adopt adopts copies s
open_store persists adopts backs_up new_id copies (unsupported n) = inr (unsupported_version n)
