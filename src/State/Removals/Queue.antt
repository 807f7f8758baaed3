-- ===== src/State/Removals/Queue.antt =====
-- What the removal queue holds, and what the caps keep.
use poolpilot_relay.Prelude.{
  ==_refl, Bool-cases, List, String, [], any, any-append, ap, arith, drop, eq_iff, false, inl, inr,
  leb, leb→le, length, length-drop, min, refl, suc, true, zero, ℕ, ◌++◌, ◌-◌, ◌==◌, ◌∙◌, ◌∷◌, ◌≡◌,
}
use poolpilot_relay.Go.Time.{Time}
use poolpilot_relay.State.Document.{PendingDeviceRemoval, State}
use poolpilot_relay.State.Removals.{cap_queue, queue_device_removal}

-- No two entries are of one device.
abbrev pub OncePerDevice : List PendingDeviceRemoval → Type 0
OncePerDevice [] = Unit {0}
OncePerDevice (p ∷ ps) = (any (λ q. q.device_id == p.device_id) ps ≡ false) × OncePerDevice ps

module _ (sha256_hex : String → String) where
  once_snoc :
      (ps : List PendingDeviceRemoval) (p : PendingDeviceRemoval)
      → any (λ q. q.device_id == p.device_id) ps ≡ false
      → OncePerDevice ps
      → OncePerDevice (ps ++ (p ∷ []))
  once_snoc [] p h o = (refl, tt)
  once_snoc (q ∷ ps) p h (here, o) = (
    any-append (λ r. r.device_id == q.device_id) ps (p ∷ [])
        ∙ ground (arith, here, h, eq_iff q.device_id p.device_id, eq_iff p.device_id q.device_id),
    once_snoc ps p (ground arith) o,
  )

  -- Queueing a device's removal keeps one entry per device.
  pub queue_device_removal-OncePerDevice :
      (s : State) (id : String) (now : Time)
      → OncePerDevice s.pending_device_removals
      → OncePerDevice (queue_device_removal sha256_hex s id now).pending_device_removals
  unfolding queue_device_removal
  queue_device_removal-OncePerDevice s id now o =
      elim (Bool-cases (any (λ p. p.device_id == id) s.pending_device_removals)) [
        | inl e ↦ rw (e, queue_device_removal) o
        | inr e ↦ rw (e, queue_device_removal) (once_snoc s.pending_device_removals _ e o)
      ]

  queued_after :
      (s : State) (id : String) (now : Time)
      → any
          (λ p. p.device_id == id)
          (queue_device_removal sha256_hex s id now).pending_device_removals
        ≡ true
  unfolding queue_device_removal
  queued_after s id now =
      elim (Bool-cases (any (λ p. p.device_id == id) s.pending_device_removals)) [
        | inl e ↦ rw (e, queue_device_removal) e
        | inr e ↦
            rw (e, queue_device_removal)
              (any-append (λ p. p.device_id == id) s.pending_device_removals _
                ∙ ground (arith, e, ==_refl id))
      ]

  -- Afterwards the device is queued, and queueing it again, at any later time, changes nothing:
  -- the entry keeps its age and its backoff.
  pub queue_device_removal_again :
      (s : State) (id : String) (now later : Time)
      → let s' = queue_device_removal sha256_hex s id now in
        (any (λ p. p.device_id == id) s'.pending_device_removals ≡ true)
        × (queue_device_removal sha256_hex s' id later ≡ s')
  queue_device_removal_again s id now later =
      (queued_after s id now, unfold queue_device_removal in rw (queued_after s id now))

module _ {ℓ} {A : Type ℓ} where
  drop_split : (n : ℕ) (q : List A) → (dropped : List A) × (dropped ++ drop n q ≡ q)
  drop_split zero q = ([], refl)
  drop_split (suc n) [] = ([], refl)
  drop_split (suc n) (x ∷ q) = let (d, e) = drop_split n q in (x ∷ d, ap (◌∷◌ x) e)

  -- A cap keeps at most `limit` entries, exactly that many of a queue that is longer, and they are
  -- the queue's last ones in their order.
  pub cap_queue_lem :
      (limit : ℕ) (q : List A)
      → (length (cap_queue limit q) ≡ min limit (length q))
        × ((dropped : List A) × (dropped ++ cap_queue limit q ≡ q))
  unfolding cap_queue
  cap_queue_lem limit q = elim (Bool-cases (leb (length q) limit)) [
    | inl e ↦ rw (e, cap_queue) (omega (arith, leb→le _ _ e), ([], refl))
    | inr e ↦
        rw (e, cap_queue)
          (ground (arith, e, length-drop (length q - limit) q), drop_split (length q - limit) q)
  ]
