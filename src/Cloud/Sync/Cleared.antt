-- ===== src/Cloud/Sync/Cleared.antt =====
-- internal/agent/cloud/cloud.go: what a pass of the sync leaves flagged, where the cloud takes every
-- configuration, each clear persists, and nobody else changes the store.
use poolpilot_relay.Prelude.{
  ==_refl, All, All-append, List, String, [], ap, arith, eqb, false, if◌then◌else◌, map, none, refl,
  some, subst, sym, true, ◌++◌, ◌==◌, ◌∙◌, ◌∷◌, ◌≡◌,
}
use poolpilot_relay.Cloud.Calls.{update_result}
use poolpilot_relay.Cloud.Sync.{Push, clear_pending, needs_sync}
use poolpilot_relay.State.Controllers.{modify_controller}
use poolpilot_relay.State.Document.{Controller, State}
use poolpilot_relay.State.Household.{enrolled, tunnel_parked}
use poolpilot_relay.Store.{Store, normalize, update}

-- A push that the cloud accepts.
abbrev pub Accepts : Push → Type 0
Accepts p =
    (update_result true p.answer ≡ none)
    × (p.persists ≡ true)
    × ((st : Store) → p.meanwhile st ≡ st)

-- A controller without its flag, where it has a GUID.
unfoldable pub flag_cleared : Controller → Controller
flag_cleared c = if c.guid == "" then c else record c { cloud_sync_pending = false }

-- No two of the controllers share a GUID.
abbrev pub Distinct : List Controller → Type 0
Distinct [] = Unit
Distinct (c ∷ cs) = All (λ d. (c.guid == d.guid) ≡ false) cs × Distinct cs

-- A store that may be written, of an enrolled relay that is not parked.
abbrev pub Ready : Store → Type 0
Ready st = (st.wiped ≡ false) × (enrolled st.doc ≡ true) × (tunnel_parked st.doc ≡ false)

pub modify-skips :
    (guid : String) (f : Controller → Controller) (seen rest : List Controller)
    → All (λ d. (d.guid == guid) ≡ false) seen
    → modify_controller guid f (seen ++ rest) ≡ seen ++ modify_controller guid f rest
unfolding modify_controller
modify-skips guid f [] rest h = refl
modify-skips guid f (d ∷ seen) rest h = ground (arith, h.0, modify-skips guid f seen rest h.1)

pub flag_cleared-guid : (c : Controller) → (flag_cleared c).guid ≡ c.guid
unfolding flag_cleared
flag_cleared-guid c = ground arith

cleared_twice : (c : Controller) → flag_cleared (flag_cleared c) ≡ flag_cleared c
unfolding flag_cleared needs_sync
cleared_twice c = ground arith

pub map-cleared_twice :
    (cs : List Controller) → map flag_cleared (map flag_cleared cs) ≡ map flag_cleared cs
map-cleared_twice [] = refl
map-cleared_twice (c ∷ cs) = ground (arith, cleared_twice c, map-cleared_twice cs)

apart_cleared :
    (guid : String) (cs : List Controller)
    → All (λ d. (guid == d.guid) ≡ false) cs
    → All (λ d. (guid == d.guid) ≡ false) (map flag_cleared cs)
apart_cleared guid [] h = tt
apart_cleared guid (c ∷ cs) h =
    (subst (λ g. (guid == g) ≡ false) (sym (flag_cleared-guid c)) h.0, apart_cleared guid cs h.1)

pub map-flag_cleared-Distinct :
    (cs : List Controller) → Distinct cs → Distinct (map flag_cleared cs)
map-flag_cleared-Distinct [] h = tt
map-flag_cleared-Distinct (c ∷ cs) h = (
  subst (λ g. All (λ d. (g == d.guid) ≡ false) (map flag_cleared cs)) (sym (flag_cleared-guid c))
      (apart_cleared c.guid cs h.0),
  map-flag_cleared-Distinct cs h.1,
)

-- None of the controllers that the round has seen shares a GUID with one that it has not.
abbrev pub Apart : List Controller → List Controller → Type 0
Apart seen rest = All (λ c. All (λ d. (d.guid == c.guid) ≡ false) seen) rest

pub Apart-snoc :
    (seen : List Controller) (c : Controller) (guid : String) (rest : List Controller)
    → c.guid ≡ guid
    → All (λ d. (guid == d.guid) ≡ false) rest
    → Apart seen rest
    → Apart (seen ++ (c ∷ [])) rest
Apart-snoc seen c guid [] e h a = tt
Apart-snoc seen c guid (d ∷ rest) e h a = (
  All-append (λ x. (x.guid == d.guid) ≡ false) seen (c ∷ []) a.0
      (subst (λ g. (g == d.guid) ≡ false) (sym e) h.0, tt),
  Apart-snoc seen c guid rest e h.1 a.1,
)

modify-own :
    (c : Controller) (cs : List Controller)
    → needs_sync c ≡ true
    → modify_controller c.guid
        (λ d. if eqb d.config_rev c.config_rev then record d { cloud_sync_pending = false } else d)
        (c ∷ cs)
      ≡ flag_cleared c ∷ cs
unfolding modify_controller flag_cleared needs_sync
modify-own c cs h = ground (arith, h, ==_refl c.guid)

-- The write that clears a flag.
pub clear-lands :
    (c : Controller) (seen rest : List Controller) (st : Store)
    → needs_sync c ≡ true
    → st.wiped ≡ false
    → st.doc.controllers ≡ seen ++ (c ∷ rest)
    → All (λ d. (d.guid == c.guid) ≡ false) seen
    → (st' : Store) × (update true (clear_pending c.guid c.config_rev) st ≡ (st', none))
      × (st'.wiped ≡ false)
      × (st'.doc.cloud ≡ st.doc.cloud)
      × (st'.doc.controllers ≡ seen ++ (flag_cleared c ∷ rest))
unfolding update normalize clear_pending
clear-lands c seen rest st n w e a =
    let doc : State = normalize (clear_pending c.guid c.config_rev st.doc) in
    (
      record st { doc = doc; disk = some doc },
      rw w refl,
      w,
      refl,
      ap
            (modify_controller c.guid (λ d.
              if eqb d.config_rev c.config_rev then record d { cloud_sync_pending = false } else d))
            e
          ∙ modify-skips c.guid
              (λ d.
                if eqb d.config_rev c.config_rev
                then record d { cloud_sync_pending = false }
                else d)
              seen (c ∷ rest) a
          ∙ ap (λ r. seen ++ r) (modify-own c rest n),
    )
