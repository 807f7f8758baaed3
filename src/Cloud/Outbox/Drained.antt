-- ===== src/Cloud/Outbox/Drained.antt =====
-- What a delivery of the queue leaves, where nobody else writes to the store meanwhile.
use poolpilot_relay.Prelude.{
  All, List, Option, Option-cases, String, [], ap, arith, inl, inr, length, none, refl, some, subst,
  suc, sym, true, ◌++◌, ◌<◌, ◌∙◌, ◌∷◌, ◌≡◌, ◌≢◌, ◌≤◌, ◌⊎◌,
}
use poolpilot_relay.Cloud.Outbox.{
  DrainError, Round, Turn, after_turn, drain, not_persisted, unavailable,
}
use poolpilot_relay.Cloud.Outbox.Fates.{IsExpired, IsFinal, IsPutOff, kept-Fate, popped-Fate}
use poolpilot_relay.Cloud.Outbox.Turns.{
  IsQuiet, TurnOf, delivered_all, keeps, parked, pops, quiet_turn, unwritten,
}
use poolpilot_relay.Go.Time.{Time}
use poolpilot_relay.State.Document.{outbox_limit}
use poolpilot_relay.State.Household.{tunnel_parked}
use poolpilot_relay.Store.{Store}
use poolpilot_relay.Wire.Alerts.{AlertRequest}

module _ (parse_time : String → Option Time) where
  -- Each entry that is gone had expired in its round, or the cloud answered it with a status other
  -- than 401, 403 and the 5xx.
  abbrev pub Settled : List Round → List AlertRequest → List AlertRequest → Type 0
  Settled rounds queue [] = Unit {0}
  Settled (r ∷ rounds) (head ∷ rest) (g ∷ gone) =
      (g ≡ head)
      × (IsExpired parse_time head rest r.now ⊎ IsFinal r.answer)
      × Settled rounds rest gone
  Settled [] queue (g ∷ gone) = ⊥
  Settled (r ∷ rounds) [] (g ∷ gone) = ⊥

  -- The entry after those that are gone had not expired in its round, and met no answer, 401, 403
  -- or one of the 5xx.
  abbrev pub PutOff : List Round → List AlertRequest → List AlertRequest → Type 0
  PutOff (r ∷ rounds) (head ∷ rest) [] =
      (¬ IsExpired parse_time head rest r.now) × IsPutOff r.answer
  PutOff (r ∷ rounds) (head ∷ rest) (g ∷ gone) = PutOff rounds rest gone
  PutOff [] queue gone = ⊥
  PutOff (r ∷ rounds) [] gone = ⊥

  abbrev pub Delivered : List Round → List AlertRequest → Store → Option DrainError → Type 0
  Delivered rounds q st e =
      (gone : List AlertRequest) × (q ≡ gone ++ st.doc.outbox)
      × Settled rounds q gone
      × (e ≡ none → (st.doc.outbox ≡ []) ⊎ (tunnel_parked st.doc ≡ true))
      × (e ≡ some unavailable → PutOff rounds q gone)

  stopped :
      (rounds : List Round) (q : List AlertRequest) (st st' : Store) (e e' : Option DrainError)
      → st.doc.outbox ≡ q
      → (e ≡ none → (q ≡ []) ⊎ (tunnel_parked st.doc ≡ true))
      → (e ≡ some unavailable → PutOff rounds q [])
      → ◌≡◌ {A = Option (Store × Option DrainError)} (some (st, e)) (some (st', e'))
      → Delivered rounds q st' e'
  stopped rounds q st st' e e' o n u d =
      let same : st ≡ st' = ground (arith, d) in
      let same_end : e ≡ e' = ground (arith, d) in
      subst (λ s. Delivered rounds q s e') same
        (
          [],
          sym o,
          tt,
          λ z. subst (λ x. (x ≡ []) ⊎ (tunnel_parked st.doc ≡ true)) (sym o) (n (same_end ∙ z)),
          λ z. u (same_end ∙ z),
        )

  turn-Delivered :
      (r : Round) (rounds : List Round) (st st' : Store) (q : List AlertRequest) (t : Turn)
      (e : Option DrainError)
      → ((mid : Store) (rest : List AlertRequest)
          → mid.doc.outbox ≡ rest
          → length rest ≤ outbox_limit
          → drain parse_time rounds mid ≡ some (st', e)
          → Delivered rounds rest st' e)
      → st.doc.outbox ≡ q
      → length q ≤ outbox_limit
      → TurnOf parse_time r st q t
      → after_turn (drain parse_time rounds) t ≡ some (st', e)
      → Delivered (r ∷ rounds) q st' e
  turn-Delivered r rounds st st' _ _ e go o h delivered_all d =
      stopped (r ∷ rounds) [] st st' none e o (λ z. inl refl) (λ z. absurd (ground (arith, z))) d
  turn-Delivered r rounds st st' _ _ e go o h (parked head rest p) d =
      stopped (r ∷ rounds) (head ∷ rest) st st' none e o (λ z. inr p)
        (λ z. absurd (ground (arith, z))) d
  turn-Delivered r rounds st st' _ _ e go o h (keeps head rest k) d =
      stopped (r ∷ rounds) (head ∷ rest) st st' (some unavailable) e o
        (λ z. absurd (ground (arith, z))) (λ z. kept-Fate parse_time head rest r k) d
  turn-Delivered r rounds st st' _ _ e go o h (unwritten head rest) d =
      stopped (r ∷ rounds) (head ∷ rest) st st' (some not_persisted) e o
        (λ z. absurd (ground (arith, z))) (λ z. absurd (ground (arith, z))) d
  turn-Delivered r rounds st st' _ _ e go o h (pops head rest mid k m) d =
      let (gone, split, settled, end, held) = go mid rest m (omega (arith, h)) d in
      (
        head ∷ gone,
        ap (◌∷◌ head) split,
        (refl, popped-Fate parse_time head rest r k, settled),
        end,
        held,
      )

  drained_from :
      (rounds : List Round) (st st' : Store) (q : List AlertRequest) (e : Option DrainError)
      → All IsQuiet rounds
      → st.doc.outbox ≡ q
      → length q ≤ outbox_limit
      → drain parse_time rounds st ≡ some (st', e)
      → Delivered rounds q st' e
  unfolding drain
  drained_from [] st st' q e z o h d = absurd (ground (arith, d))
  drained_from (r ∷ rounds) st st' q e (z, zs) o h d =
      turn-Delivered r rounds st st' q _ e
        (λ mid rest m b f. drained_from rounds mid st' rest e zs m b f) o h
        (quiet_turn parse_time r st q z o h) d

  -- Where nobody else writes to the queue meanwhile and it is within its limit, a delivery that
  -- returns has only popped from the front: each of the entries that are gone, in order, had in its
  -- round a time more than an hour ago, without being a recovery that is the last word on its rule,
  -- or met a status other than 401, 403 and 500 and above; and what is left is the rest of the
  -- queue. If it returns without an error, nothing is left or the tunnel is parked; if it returns as
  -- unavailable, the first entry left had not expired so, and met no answer or one of those.
  pub drain-Delivered :
      (rounds : List Round) (st st' : Store) (e : Option DrainError)
      → All IsQuiet rounds
      → length st.doc.outbox ≤ outbox_limit
      → drain parse_time rounds st ≡ some (st', e)
      → Delivered rounds st.doc.outbox st' e
  drain-Delivered rounds st st' e z h d = drained_from rounds st st' st.doc.outbox e z refl h d

  turn_returns :
      (r : Round) (rounds : List Round) (st : Store) (q : List AlertRequest) (t : Turn)
      → ((mid : Store) (rest : List AlertRequest)
          → mid.doc.outbox ≡ rest
          → length rest ≤ outbox_limit
          → length rest < length rounds
          → drain parse_time rounds mid ≢ none)
      → length q ≤ outbox_limit
      → length q < suc (length rounds)
      → TurnOf parse_time r st q t
      → after_turn (drain parse_time rounds) t ≢ none
  turn_returns r rounds st _ _ go h n delivered_all = λ p. absurd (ground (arith, p))
  turn_returns r rounds st _ _ go h n (parked head rest _) = λ p. absurd (ground (arith, p))
  turn_returns r rounds st _ _ go h n (keeps head rest _) = λ p. absurd (ground (arith, p))
  turn_returns r rounds st _ _ go h n (unwritten head rest) = λ p. absurd (ground (arith, p))
  turn_returns r rounds st _ _ go h n (pops head rest mid k m) =
      go mid rest m (omega (arith, h)) (omega (arith, n))

  drain_returns :
      (rounds : List Round) (st : Store) (q : List AlertRequest)
      → All IsQuiet rounds
      → st.doc.outbox ≡ q
      → length q ≤ outbox_limit
      → length q < length rounds
      → drain parse_time rounds st ≢ none
  unfolding drain
  drain_returns [] st q z o h n = absurd (omega (arith, n))
  drain_returns (r ∷ rounds) st q (z, zs) o h n =
      turn_returns r rounds st q _ (λ mid rest m b f. drain_returns rounds mid rest zs m b f) h n
        (quiet_turn parse_time r st q z o h)

  -- Where nobody else writes to the queue meanwhile and it is within its limit, one round for each
  -- entry and one more are enough for a delivery to return.
  pub drain_ends :
      (rounds : List Round) (st : Store)
      → All IsQuiet rounds
      → length st.doc.outbox ≤ outbox_limit
      → length st.doc.outbox < length rounds
      → (st' : Store) × (e : Option DrainError) × (drain parse_time rounds st ≡ some (st', e))
  drain_ends rounds st z h n = elim (Option-cases (drain parse_time rounds st)) [
    | inl p ↦ absurd (drain_returns rounds st st.doc.outbox z refl h n p)
    | inr (x, p) ↦ (x.0, x.1, p)
  ]
