-- ===== src/State/Controllers/Slots.antt =====
-- How lookups see the writes.
use mathlib.Core.Option
use poolpilot_relay.Prelude.{
  ==_refl, Bool, Bool-cases, List, String, [], any, arith, eq_iff, false, filter, if◌then◌else◌,
  inl, inr, is_some, none, not, refl, some, ◌&&◌, ◌==◌, ◌∷◌, ◌≡◌, ◌≢◌, ◌⊎◌,
}
use poolpilot_relay.State.Controllers.{
  find_controller, modify_controller, remove_controller, upsert_controller,
}
use poolpilot_relay.State.Document.{Controller, no_controller}

-- Among the controllers that have a guid, no two share one.
abbrev pub DistinctGuids : List Controller → Type 0
DistinctGuids [] = Unit {0}
DistinctGuids (c ∷ cs) =
    ((c.guid ≡ "") ⊎ (any (λ d. d.guid == c.guid) cs ≡ false)) × DistinctGuids cs

find-any :
    (guid : String) (cs : List Controller)
    → is_some (find_controller guid cs) ≡ any (λ c. c.guid == guid) cs
unfolding find_controller
find-any guid [] = refl
find-any guid (c ∷ cs) = ground (arith, find-any guid cs)

find-none :
    (guid : String) (cs : List Controller)
    → any (λ c. c.guid == guid) cs ≡ false
    → find_controller guid cs ≡ none
unfolding find_controller
find-none guid [] h = refl
find-none guid (c ∷ cs) h = ground (arith, find-none guid cs)

-- A write to a controller that keeps its guid is seen by a lookup of that guid alone.
pub find-modify_controller :
    (guid j : String) (f : Controller → Controller) (cs : List Controller)
    → ((c : Controller) → (f c).guid ≡ c.guid)
    → find_controller j (modify_controller guid f cs)
      ≡ (if guid == j then Option.map f (find_controller j cs) else find_controller j cs)
unfolding find_controller modify_controller
find-modify_controller guid j f [] keeps = ground arith
find-modify_controller guid j f (c ∷ cs) keeps = ground (
  arith,
  keeps c,
  eq_iff c.guid guid,
  eq_iff c.guid j,
  eq_iff guid j,
  find-modify_controller guid j f cs keeps,
)

-- Removing a controller reports whether there was one, forgets it where guids are distinct, and
-- leaves every other lookup as it was.
pub find-remove_controller :
    (guid j : String) (cs : List Controller)
    → DistinctGuids cs
    → guid ≢ ""
    → let (cs', removed) = remove_controller guid cs in
      (removed ≡ is_some (find_controller guid cs))
      × (find_controller j cs' ≡ (if guid == j then none else find_controller j cs))
unfolding find_controller remove_controller
find-remove_controller guid j [] d g = ground arith
find-remove_controller guid j (c ∷ cs) (here, d) g = ground (
  arith,
  here,
  g,
  eq_iff c.guid guid,
  eq_iff c.guid j,
  eq_iff guid j,
  find-none c.guid cs,
  find-remove_controller guid j cs d g,
)

-- A write that keeps every guid keeps the guids distinct.
guids-modify :
    (guid j : String) (f : Controller → Controller) (cs : List Controller)
    → ((c : Controller) → (f c).guid ≡ c.guid)
    → any (λ c. c.guid == j) (modify_controller guid f cs) ≡ any (λ c. c.guid == j) cs
unfolding modify_controller
guids-modify guid j f [] keeps = refl
guids-modify guid j f (c ∷ cs) keeps = ground (arith, keeps c, guids-modify guid j f cs keeps)

pub modify_controller-DistinctGuids :
    (guid : String) (f : Controller → Controller) (cs : List Controller)
    → ((c : Controller) → (f c).guid ≡ c.guid)
    → DistinctGuids cs
    → DistinctGuids (modify_controller guid f cs)
unfolding modify_controller
modify_controller-DistinctGuids guid f [] keeps d = tt
modify_controller-DistinctGuids guid f (c ∷ cs) keeps (here, d) = ground (
  arith,
  here,
  keeps c,
  guids-modify guid c.guid f cs keeps,
  modify_controller-DistinctGuids guid f cs keeps d,
)

guids-remove :
    (guid j : String) (cs : List Controller)
    → any (λ c. c.guid == j) cs ≡ false
    → any (λ c. c.guid == j) (remove_controller guid cs).0 ≡ false
unfolding remove_controller
guids-remove guid j [] h = refl
guids-remove guid j (c ∷ cs) h = ground (arith, guids-remove guid j cs)

pub remove_controller-DistinctGuids :
    (guid : String) (cs : List Controller)
    → DistinctGuids cs
    → DistinctGuids (remove_controller guid cs).0
unfolding remove_controller
remove_controller-DistinctGuids guid [] d = tt
remove_controller-DistinctGuids guid (c ∷ cs) (here, d) =
    ground (arith, here, guids-remove guid c.guid cs, remove_controller-DistinctGuids guid cs d)

guids-upsert :
    (j guid : String) (f : Controller → Controller) (cs : List Controller)
    → ((c : Controller) → (f c).guid ≡ guid)
    → guid ≢ j
    → any (λ c. c.guid == j) cs ≡ false
    → any (λ c. c.guid == j) (upsert_controller f cs) ≡ false
unfolding upsert_controller
guids-upsert j guid f [] names other h = ground (arith, names no_controller, eq_iff guid j)
guids-upsert j guid f (c ∷ cs) names other h =
    ground (arith, names c, eq_iff guid j, guids-upsert j guid f cs names other)

-- Registering a controller under a guid that no slot has keeps the guids distinct.
pub upsert_controller-DistinctGuids :
    (guid : String) (f : Controller → Controller) (cs : List Controller)
    → ((c : Controller) → (f c).guid ≡ guid)
    → any (λ c. c.guid == guid) cs ≡ false
    → DistinctGuids cs
    → DistinctGuids (upsert_controller f cs)
unfolding upsert_controller
upsert_controller-DistinctGuids guid f [] names new d = (inr refl, tt)
upsert_controller-DistinctGuids guid f (c ∷ cs) names new (here, d) = ground (
  arith,
  here,
  names c,
  eq_iff c.guid guid,
  guids-upsert c.guid guid f cs names,
  upsert_controller-DistinctGuids guid f cs names (ground arith) d,
)

-- A slot that has an address, or that no lookup can find by the guid `j`.
abbrev pub has_address : Controller → Bool
has_address c = not (c.lan_address == "")

-- Registering a controller leaves every slot that has an address as it is, in its order: it fills
-- the first slot without one, else it appends a slot. A lookup of the new guid finds what was
-- written into that slot.
pub filter-upsert_controller :
    (guid : String) (f : Controller → Controller) (cs : List Controller)
    → ((c : Controller) → (f c).guid ≡ guid)
    → any (λ c. c.guid == guid) cs ≡ false
    → (slot : Controller) × (has_address slot ≡ false)
      × (find_controller guid (upsert_controller f cs) ≡ some (f slot))
      × ((q : Controller → Bool)
          → q (f slot) ≡ false
          → filter (λ c. has_address c && q c) (upsert_controller f cs)
            ≡ filter (λ c. has_address c && q c) cs)
unfolding upsert_controller find_controller
filter-upsert_controller guid f [] names new = (
  no_controller,
  refl,
  ground (arith, names no_controller, ==_refl guid),
  λ q h. ground (arith, h),
)
filter-upsert_controller guid f (c ∷ cs) names new = elim (Bool-cases (c.lan_address == "")) [
  | inl e ↦ (c, ground arith, ground (arith, names c, ==_refl guid), λ q h. ground (arith, h, e))
  | inr e ↦
      let (slot, bare, found, kept) = filter-upsert_controller guid f cs names (ground arith) in
      (slot, bare, ground (arith, found, e), λ q h. ground (arith, kept q h, e))
]
