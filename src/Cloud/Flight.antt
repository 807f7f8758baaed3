-- ===== src/Cloud/Flight.antt =====
-- internal/agent/cloud/cloud.go: the single flight of SyncControllers and ReportDeviceRemovals,
-- each with a lock that its callers try and a flag by which they ask for one more pass.
use poolpilot_relay.Prelude.{
  All, Bool, Bool-cases, List, Option, [], arith, false, if◌then◌else◌, inl, inr, none, refl, some,
  subst, ◌∷◌, ◌≡◌, ◌⊎◌,
}
use poolpilot_relay.Store.{Store}

-- What a call meets at the lock: another caller holds it, or it runs a pass; `others` is what other
-- callers make of the flag from there to the swap after the unlock.
pub data Visit {ℓ} (W : Type ℓ) : Type ℓ where
  lock_taken : Visit W
  runs_pass : W → (Bool → Bool) → Visit W

module _ {W : Type 0} where
  -- Nobody else asks in the course of the visit.
  abbrev pub IsCalm : Visit W → Type 0
  IsCalm lock_taken = Unit
  IsCalm (runs_pass w others) = others false ≡ false

  abbrev pub HasCalm : List (Visit W) → Type 0
  HasCalm [] = ⊥
  HasCalm (v ∷ visits) = IsCalm v ⊎ HasCalm visits

  -- One of the visits after the first is calm.
  abbrev pub ComesToRest : List (Visit W) → Type 0
  ComesToRest [] = ⊥
  ComesToRest (v ∷ visits) = HasCalm visits

  abbrev pub Worlds : (W → Type 0) → List (Visit W) → Type 0
  Worlds Good visits =
      All (λ v. elim v [ lock_taken ↦ Unit {0} | runs_pass w others ↦ Good w ]) visits

module _ {W E : Type 0} (pass : W → Store → Store × Option E) where
  -- The calls, each of which swaps the flag for false and is followed by another if it stood;
  -- `asked` is the flag at the first of them, and the result `none` where the visits end early.
  unfoldable pub single_flight : List (Visit W) → Bool → Store → Option (Store × Option E)
  single_flight [] asked st = none
  single_flight (lock_taken ∷ visits) asked st = some (st, none)
  single_flight (runs_pass w others ∷ visits) asked st =
      let (st', e) = pass w st in
      let again = single_flight visits false st' in if others asked then again else some (st', e)

  abbrev ComesBack : List (Visit W) → Bool → Store → Type 0
  ComesBack visits asked st =
      (st' : Store) × (e : Option E) × (single_flight visits asked st ≡ some (st', e))

  flies_on :
      (w : W) (others : Bool → Bool) (visits : List (Visit W)) (asked : Bool) (st : Store)
      → ComesBack visits false (pass w st).0
      → ComesBack (runs_pass w others ∷ visits) asked st
  unfolding single_flight
  flies_on w others visits asked st (st', e, next) = elim (Bool-cases (others asked)) [
    | inl a ↦ (st', e, rw a next)
    | inr a ↦ ((pass w st).0, (pass w st).1, rw a refl)
  ]

  lands :
      (w : W) (others : Bool → Bool) (visits : List (Visit W)) (st : Store)
      → others false ≡ false
      → ComesBack (runs_pass w others ∷ visits) false st
  unfolding single_flight
  lands w others visits st calm = ((pass w st).0, (pass w st).1, rw calm refl)

  calm_ends : (visits : List (Visit W)) (st : Store) → HasCalm visits → ComesBack visits false st
  unfolding single_flight
  calm_ends [] st calm = elim calm [ ]
  calm_ends (lock_taken ∷ visits) st calm = (st, none, refl)
  calm_ends (runs_pass w others ∷ visits) st (inl calm) = lands w others visits st calm
  calm_ends (runs_pass w others ∷ visits) st (inr later) =
      flies_on w others visits false st (calm_ends visits (pass w st).0 later)

  -- The calls end if one of the visits after the first is calm, whatever the flag is at first.
  pub single_flight_ends :
      (visits : List (Visit W)) (asked : Bool) (st : Store)
      → ComesToRest visits
      → (st' : Store) × (e : Option E) × (single_flight visits asked st ≡ some (st', e))
  unfolding single_flight
  single_flight_ends [] asked st rest = elim rest [ ]
  single_flight_ends (lock_taken ∷ visits) asked st rest = (st, none, refl)
  single_flight_ends (runs_pass w others ∷ visits) asked st rest =
      flies_on w others visits asked st (calm_ends visits (pass w st).0 rest)

  -- What every pass kept, the calls keep.
  pub single_flight-keeps :
      (P : Store → Type 0) (Good : W → Type 0)
      → ((w : W) (st : Store) → Good w → P st → P (pass w st).0)
      → (visits : List (Visit W)) (asked : Bool) (st st' : Store) (e : Option E)
      → Worlds Good visits
      → P st
      → single_flight visits asked st ≡ some (st', e)
      → P st'
  unfolding single_flight
  single_flight-keeps P Good kept [] asked st st' e good p h = absurd (ground (arith, h))
  single_flight-keeps P Good kept (lock_taken ∷ visits) asked st st' e good p h =
      let same : st ≡ st' = ground (arith, h) in subst P same p
  single_flight-keeps P Good kept (runs_pass w others ∷ visits) asked st st' e (g, good) p h =
      elim (Bool-cases (others asked)) [
        | inl a ↦
            single_flight-keeps P Good kept visits false (pass w st).0 st' e good (kept w st g p)
              (ground (arith, h, a))
        | inr a ↦
            let same : (pass w st).0 ≡ st' = ground (arith, h, a) in subst P same (kept w st g p)
      ]
