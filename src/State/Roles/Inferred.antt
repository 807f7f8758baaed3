-- ===== src/State/Roles/Inferred.antt =====
-- What the inference settles.
use mathlib.Core.List.{append-nil, append_assoc}
use poolpilot_relay.Prelude.{
  Bool, Bool-cases, List, [], all, any, ap, ap₂, arith, eq_iff, false, inl, inr, map, not, refl,
  sym, true, ◌++◌, ◌<◌, ◌==◌, ◌||◌, ◌↔◌, ◌∙◌, ◌∷◌, ◌≡◌, ◌≤◌, ◌⊎◌,
}
use poolpilot_relay.Go.Time.{Time, is_zero}
use poolpilot_relay.State.Document.{Device, State, is_owner, role_member}
use poolpilot_relay.State.Roles.{
  active_when, infer_devices, infer_legacy_roles, infer_role, lacks_role, last_recovery_end,
  provably_joined, roles_era,
}

-- An active device has a role.
abbrev pub has_role : Device → Bool
has_role d = not (lacks_role d)

-- A device but for its role.
abbrev pub without_role : Device → Device
without_role d = record d { role = "" }

infer_role_lem :
    (earlier : List Device) (since : Time) (d : Device)
    → (has_role (infer_role earlier since d) ≡ true)
      × (without_role (infer_role earlier since d) ≡ without_role d)
unfolding infer_role
infer_role_lem earlier since d =
    elim (Bool-cases (not (d.role == "") || not (is_zero d.revoked_at))) [
      | inl e ↦ rw (e, infer_role) (ground arith, refl)
      | inr e ↦ elim (Bool-cases (provably_joined earlier d since)) [
        | inl j ↦ rw (e, infer_role, j) (refl, refl)
        | inr j ↦ rw (e, infer_role, j) (refl, refl)
      ]
    ]

infer_role_kept :
    (earlier : List Device) (since : Time) (d : Device)
    → has_role d ≡ true
    → infer_role earlier since d ≡ d
unfolding infer_role
infer_role_kept earlier since d h = ground arith

infer_devices-settled :
    (earlier : List Device) (since : Time) (ds : List Device)
    → all has_role ds ≡ true
    → infer_devices earlier since ds ≡ (ds, false)
unfolding infer_devices
infer_devices-settled earlier since [] h = refl
infer_devices-settled earlier since (d ∷ ds) h = ground (
  arith,
  infer_role_kept earlier since d,
  infer_devices-settled (earlier ++ (infer_role earlier since d ∷ [])) since ds,
)

infer_devices_lem :
    (earlier : List Device) (since : Time) (ds : List Device)
    → let (out, changed) = infer_devices earlier since ds in
      (all has_role out ≡ true)
      × (map without_role out ≡ map without_role ds)
      × (changed ≡ any lacks_role ds)
unfolding infer_devices
infer_devices_lem earlier since [] = (refl, refl, refl)
infer_devices_lem earlier since (d ∷ ds) =
    let here = infer_role_lem earlier since d in
    let later = infer_devices_lem (earlier ++ (infer_role earlier since d ∷ [])) since ds in
    (ground (arith, here.0, later.0), ap₂ ◌∷◌ here.1 later.1, ground (arith, later.2))

-- After the inference every active device has a role; no device is added, dropped, reordered or
-- changed but in its role; a device that was revoked or had a role keeps it; the result says
-- whether some device was changed; and a second inference changes nothing.
pub infer_legacy_roles_lem :
    (s : State)
    → let (s', changed) = infer_legacy_roles s in
      (all has_role s'.devices ≡ true)
      × (map without_role s'.devices ≡ map without_role s.devices)
      × (changed ≡ any lacks_role s.devices)
      × (infer_legacy_roles s' ≡ (s', false))
unfolding infer_legacy_roles
infer_legacy_roles_lem s =
    let recovery = last_recovery_end s.recovery_window_used in
    let (roles, kept, flag) = infer_devices_lem [] recovery s.devices in
    (
      roles,
      kept,
      flag,
      ground
          (arith, infer_devices-settled [] recovery (infer_devices [] recovery s.devices).0 roles),
    )

-- The three conditions under which a device can only have joined by invite: it has a creation time
-- in the era of roles, that time is after the last accepted recovery (if there was one), and some
-- earlier device was active then.
pub record IsJoined (earlier : List Device) (d : Device) (since : Time) : Type 0 where
  pub in_era : roles_era ≤ d.created_at
  pub not_recovery : (since ≡ 0) ⊎ (since < d.created_at)
  pub alongside : any (active_when d.created_at) earlier ≡ true

provably_joined_iff :
    (earlier : List Device) (d : Device) (since : Time)
    → (provably_joined earlier d since ≡ true) ↔ IsJoined earlier d since
unfolding provably_joined
provably_joined_iff earlier d since = (
  λ h. record { in_era = ground arith; not_recovery = ground arith; alongside = ground arith },
  λ j. ground (arith, j.in_era, j.not_recovery, j.alongside),
)

-- Devices that differ in their roles only were active at the same times.
active-roles :
    (at : Time) (xs ys : List Device)
    → map without_role xs ≡ map without_role ys
    → any (active_when at) xs ≡ any (active_when at) ys
unfolding active_when
active-roles at [] [] e = refl
active-roles at [] (y ∷ ys) e = absurd (ground arith)
active-roles at (x ∷ xs) [] e = absurd (ground arith)
active-roles at (x ∷ xs) (y ∷ ys) e = ground (arith, active-roles at xs ys)

first_not_joined : (since : Time) (d : Device) → provably_joined [] d since ≡ false
unfolding provably_joined
first_not_joined since d = ground arith

-- With no earlier device a device is not a joiner: if it lacks a role it becomes an owner.
pub infer_devices-first :
    (since : Time) (d : Device)
    → lacks_role d ≡ true
    → all is_owner (infer_devices [] since (d ∷ [])).0 ≡ true
unfolding infer_devices infer_role is_owner
infer_devices-first since d h =
    let settled : (not (d.role == "") || not (is_zero d.revoked_at)) ≡ false = ground arith in
    rw (settled, infer_role, first_not_joined since d)

infer_devices-split :
    (earlier : List Device) (since : Time) (pre : List Device) (d : Device) (post : List Device)
    → (rest : List Device) × ((infer_devices earlier since (pre ++ (d ∷ post))).0
        ≡ (infer_devices earlier since pre).0
          ++ (infer_role (earlier ++ (infer_devices earlier since pre).0) since d ∷ rest))
unfolding infer_devices
infer_devices-split earlier since [] d post = (
  (infer_devices (earlier ++ (infer_role earlier since d ∷ [])) since post).0,
  rw (append-nil earlier),
)
infer_devices-split earlier since (x ∷ pre) d post =
    let x' = infer_role earlier since x in
    let (rest, e) = infer_devices-split (earlier ++ (x' ∷ [])) since pre d post in
    (
      rest,
      ap (◌∷◌ x') (
          e
          ∙ ap
              (λ l.
                (infer_devices (earlier ++ (x' ∷ [])) since pre).0 ++ (infer_role l since d ∷ rest))
              (append_assoc earlier (x' ∷ []) _)),
    )

member_of_infer :
    (earlier : List Device) (since : Time) (d : Device)
    → lacks_role d ≡ true
    → ((infer_role earlier since d).role ≡ role_member) ↔ (provably_joined earlier d since ≡ true)
unfolding infer_role
member_of_infer earlier since d h =
    let settled : (not (d.role == "") || not (is_zero d.revoked_at)) ≡ false = ground arith in
    elim (Bool-cases (provably_joined earlier d since)) [
      | inl j ↦ rw (settled, infer_role, j) (λ _. refl, λ _. refl)
      | inr j ↦
          rw (settled, infer_role, j)
            (λ e. absurd (ground (arith, e, eq_iff "owner" "member")), λ e. absurd (ground arith))
    ]

-- A device that lacks a role, wherever it stands, becomes a member exactly if it can only have
-- joined by invite, judged by the devices before it; otherwise it becomes an owner. It keeps its
-- place.
pub inferred-member_iff :
    (s : State) (pre : List Device) (d : Device) (post : List Device)
    → s.devices ≡ pre ++ (d ∷ post)
    → lacks_role d ≡ true
    → let since = last_recovery_end s.recovery_window_used in
      (d' : Device) × (rest : List Device) × ((infer_legacy_roles s).0.devices
        ≡ (infer_devices [] since pre).0 ++ (d' ∷ rest))
      × ((d'.role ≡ role_member) ↔ IsJoined pre d since)
unfolding infer_legacy_roles
inferred-member_iff s pre d post e lacks =
    let since = last_recovery_end s.recovery_window_used in
    let passed = (infer_devices [] since pre).0 in
    let (rest, at) = infer_devices-split [] since pre d post in
    let same = active-roles d.created_at passed pre (infer_devices_lem [] since pre).1 in
    let to = member_of_infer passed since d lacks in
    let joined = provably_joined_iff passed d since in
    (
      infer_role passed since d,
      rest,
      rw e at,
      (
        λ m.
            let j = joined.0 (to.0 m) in
            record {
              in_era = j.in_era;
              not_recovery = j.not_recovery;
              alongside = sym same ∙ j.alongside;
            },
        λ j. to.1 (
            joined.1 (record {
              in_era = j.in_era;
              not_recovery = j.not_recovery;
              alongside = same ∙ j.alongside;
            })),
      ),
    )
