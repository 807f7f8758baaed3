-- ===== src/State/Controllers.antt =====
-- internal/agent/state/state.go: the controllers of a document. A pointer that the source returns
-- into the slice is here a position: what the caller writes through it is a function on the
-- controller at that position.
pub mod Slots
use poolpilot_relay.Prelude.{
  Bool, List, Option, String, [], false, if◌then◌else◌, map, none, not, some, true, ◌==◌, ◌∷◌,
}
use poolpilot_relay.Preset.{procon_ip}
use poolpilot_relay.State.Document.{Controller, State, no_controller}

-- The loop that `FindController` and `ControllerByGUID` share.
unfoldable pub find_controller : String → List Controller → Option Controller
find_controller guid [] = none
find_controller guid (c ∷ cs) = if c.guid == guid then some c else find_controller guid cs

-- A write through the pointer of `ControllerByGUID`, and nothing where that is nil.
unfoldable pub modify_controller :
    String → (Controller → Controller) → List Controller → List Controller
modify_controller guid f [] = []
modify_controller guid f (c ∷ cs) =
    let rest = modify_controller guid f cs in if c.guid == guid then f c ∷ cs else c ∷ rest

-- A write through the pointer of `UpsertControllerSlot`: the first slot with no address, else a
-- new one at the end.
unfoldable pub upsert_controller : (Controller → Controller) → List Controller → List Controller
upsert_controller f [] = f no_controller ∷ []
upsert_controller f (c ∷ cs) =
    let rest = upsert_controller f cs in if c.lan_address == "" then f c ∷ cs else c ∷ rest

-- The slice without the first controller of that guid, and whether there was one.
unfoldable pub remove_controller : String → List Controller → List Controller × Bool
remove_controller guid [] = ([], false)
remove_controller guid (c ∷ cs) =
    let rest = remove_controller guid cs in
    if c.guid == guid then (cs, true) else (c ∷ rest.0, rest.1)

-- A write through the pointer of `EnsureController0`.
unfoldable pub modify_controller0 : (Controller → Controller) → List Controller → List Controller
modify_controller0 f [] = f no_controller ∷ []
modify_controller0 f (c ∷ cs) = f c ∷ cs

unfoldable pub controller_configured : List Controller → Bool
controller_configured [] = false
controller_configured (c ∷ cs) = not (c.lan_address == "")

unfoldable pub effective_preset : Controller → String
effective_preset c = if c.preset == "" then procon_ip else c.preset

-- `SeedCloudSync`'s closure.
unfoldable pub seed_cloud_sync : State → State
seed_cloud_sync s = if s.cloud_sync_seeded then s else record s {
  controllers =
      map (λ c. if c.guid == "" then c else record c { cloud_sync_pending = true }) s.controllers;
  cloud_sync_seeded = true;
}
