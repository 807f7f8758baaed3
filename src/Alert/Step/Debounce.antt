-- ===== src/Alert/Step/Debounce.antt =====
-- Debouncing: what a rule has committed, against the observations that it has seen.
use poolpilot_relay.Prelude.{
  ==_cases, ==_refl, All, List, String, [], arith, eq_iff, false, if◌then◌else◌, inl, inr, suc, sym,
  true, ℕ, ◌<◌, ◌==◌, ◌^◌, ◌∙◌, ◌∷◌, ◌≡◌, ◌≢◌, ◌≤◌, ◌⊎◌,
}
use poolpilot_relay.Alert.Engine.{RuleState, fresh, renotify_if_due}
use poolpilot_relay.Alert.Step.{commit, committed, debounce_of, pending_count, step_banded}
use poolpilot_relay.Go.Int64.{add64_one}
use poolpilot_relay.Go.Time.{Time}
use poolpilot_relay.Prelude.Int.{ltb_ℤ, pos}
use poolpilot_relay.Wire.Alerts.{AlertRule}

-- One poll: the severity observed, and when.
abbrev pub Observation : Type 0
Observation = String × Time

-- How many of the latest observations, newest first, are all `s`.
unfoldable pub streak : String → List Observation → ℕ
streak s [] = 0
streak s ((o, at) ∷ older) = let rest = streak s older in if o == s then suc rest else 0

module _ (rfc3339 : Time → String) (rule : AlertRule) where
  -- The rule's memory after a history, newest first, from a fresh state.
  unfoldable pub after_history : List Observation → RuleState
  after_history [] = fresh
  after_history ((o, at) ∷ older) = (step_banded rfc3339 rule (after_history older) o at).0

  -- What the memory says of every severity that is not committed: how long its streak is, and
  -- that the streak has not reached the debounce.
  record Tracks (n : ℕ) (rs : RuleState) (h : List Observation) (s : String) : Type 0 where
    counted : pos (streak s h) ≡ (if s == rs.pending_severity then rs.pending_count else pos 0)
    below : streak s h < n

  renotify_keeps :
      (rs : RuleState) (now : Time)
      → let rs' = (renotify_if_due rfc3339 rule rs now).0 in
        (rs'.last_severity ≡ rs.last_severity)
        × (rs'.pending_severity ≡ rs.pending_severity)
        × (rs'.pending_count ≡ rs.pending_count)
  unfolding renotify_if_due
  renotify_keeps rs now = ground arith

  -- One poll, by the memory it leaves: the committed severity and the pending one with its count.
  step_memory :
      (rs : RuleState) (o : String) (at : Time)
      → let rs' = (step_banded rfc3339 rule rs o at).0 in
        ((o ≡ committed rs)
          × (rs'.last_severity ≡ rs.last_severity)
          × (rs'.pending_severity ≡ "")
          × (rs'.pending_count ≡ pos 0))
        ⊎ ((o ≢ committed rs)
            × (ltb_ℤ (pending_count rs o) (debounce_of rule) ≡ true)
            × (rs'.last_severity ≡ rs.last_severity)
            × (rs'.pending_severity ≡ o)
            × (rs'.pending_count ≡ pending_count rs o))
        ⊎ ((o ≢ committed rs)
            × (ltb_ℤ (pending_count rs o) (debounce_of rule) ≡ false)
            × (rs'.last_severity ≡ o)
            × (rs'.pending_severity ≡ "")
            × (rs'.pending_count ≡ pos 0))
  unfolding step_banded commit
  step_memory rs o at = ground (
    arith,
    eq_iff o (committed rs),
    renotify_keeps (record rs { pending_severity = ""; pending_count = pos 0 }) at,
    renotify_keeps (record rs { pending_severity = o; pending_count = pending_count rs o }) at,
  )

  pending_count_lem :
      (n : ℕ) (rs : RuleState) (h : List Observation) (o : String)
      → n < 2 ^ 63
      → Tracks n rs h o
      → pending_count rs o ≡ pos (suc (streak o h))
  unfolding pending_count
  pending_count_lem n rs h o small t = ground (arith, t.counted, t.below, add64_one (streak o h))

  -- With nothing pending, no other severity than the latest observed has a streak.
  idle-Tracks :
      (n : ℕ) (rs : RuleState) (h : List Observation) (s o : String) (at : Time)
      → 0 < n
      → s ≢ ""
      → o ≢ s
      → rs.pending_severity ≡ ""
      → Tracks n rs ((o, at) ∷ h) s
  unfolding streak
  idle-Tracks n rs h s o at some_poll ns os p =
      ground (arith, eq_iff o s, eq_iff s rs.pending_severity)

  pending-Tracks :
      (n : ℕ) (rs : RuleState) (h : List Observation) (s o : String) (at : Time)
      → 0 < n
      → rs.pending_severity ≡ o
      → rs.pending_count ≡ pos (suc (streak o h))
      → suc (streak o h) < n
      → Tracks n rs ((o, at) ∷ h) s
  unfolding streak
  pending-Tracks n rs h s o at some_poll p c b = elim (==_cases o s) [
    | inl (e, os) ↦ ground (arith, eq_iff s rs.pending_severity)
    | inr (e, os) ↦ ground (arith, eq_iff s rs.pending_severity)
  ]

  last-eq_committed :
      (rs rs' : RuleState) → rs'.last_severity ≡ rs.last_severity → committed rs' ≡ committed rs
  unfolding committed
  last-eq_committed rs rs' l = rw l

  committed-eq-last :
      (rs : RuleState) (o : String) → rs.last_severity ≡ o → o ≢ "" → committed rs ≡ o
  unfolding committed
  committed-eq-last rs o l oe = ground (arith, eq_iff rs.last_severity "")

  committed_of_last :
      (rs : RuleState) (o s : String) → rs.last_severity ≡ o → s ≢ "" → s ≢ committed rs → o ≢ s
  unfolding committed
  committed_of_last rs o s l ns nc e = ground (arith, eq_iff rs.last_severity "")

  step-Tracks :
      (n : ℕ) (rs : RuleState) (h : List Observation) (s o : String) (at : Time)
      → debounce_of rule ≡ pos n
      → 0 < n
      → n < 2 ^ 63
      → s ≢ ""
      → o ≢ ""
      → s ≢ committed (step_banded rfc3339 rule rs o at).0
      → ((t : String) → t ≢ "" → t ≢ committed rs → Tracks n rs h t)
      → Tracks n (step_banded rfc3339 rule rs o at).0 ((o, at) ∷ h) s
  step-Tracks n rs h s o at e some_poll small ns oe nc t = elim (step_memory rs o at) [
    | inl (oc, l, p, c) ↦
        idle-Tracks n _ h s o at some_poll ns
          (λ q. nc (sym q ∙ oc ∙ sym (last-eq_committed rs _ l))) p
    | inr (inl (oc, b, l, p, c)) ↦
        let counted = pending_count_lem n rs h o small (t o oe oc) in
        pending-Tracks n _ h s o at some_poll p (c ∙ counted) (ground (arith, counted, e, b))
    | inr (inr (oc, b, l, p, c)) ↦
        idle-Tracks n _ h s o at some_poll ns (committed_of_last _ o s l ns nc) p
  ]

  -- Every severity that was observed is one: none is the empty text.
  abbrev pub Observed : List Observation → Type 0
  Observed = All (λ o. o.0 ≢ "")

  history-Tracks :
      (n : ℕ) (h : List Observation)
      → debounce_of rule ≡ pos n
      → 0 < n
      → n < 2 ^ 63
      → Observed h
      → (s : String) → s ≢ ""
      → s ≢ committed (after_history h)
      → Tracks n (after_history h) h s
  unfolding after_history streak
  history-Tracks n [] e some_poll small obs s ns nc = ground (arith, eq_iff s "")
  history-Tracks n ((o, at) ∷ h) e some_poll small (oe, obs) s ns nc =
      step-Tracks n (after_history h) h s o at e some_poll small ns oe nc
        (history-Tracks n h e some_poll small obs)

  -- After a history of observations, newest first and from a fresh state, a severity whose latest
  -- streak has reached the rule's debounce is the committed one, for a debounce of at least one
  -- poll that an int64 holds.
  pub streak-commits :
      (n : ℕ) (h : List Observation) (s : String)
      → debounce_of rule ≡ pos n
      → 0 < n
      → n < 2 ^ 63
      → Observed h
      → s ≢ ""
      → n ≤ streak s h
      → committed (after_history h) ≡ s
  streak-commits n h s e some_poll small obs ns reached =
      elim (==_cases s (committed (after_history h))) [
        | inl (_, same) ↦ sym same
        | inr (_, other) ↦
            absurd (omega (arith, (history-Tracks n h e some_poll small obs s ns other).below))
      ]

  -- Conversely a poll changes the committed severity only to the severity that it observed, and
  -- only when that poll completes a streak as long as the debounce.
  pub commit_needs_streak :
      (n : ℕ) (h : List Observation) (o : String) (at : Time)
      → debounce_of rule ≡ pos n
      → 0 < n
      → n < 2 ^ 63
      → Observed ((o, at) ∷ h)
      → committed (after_history ((o, at) ∷ h)) ≢ committed (after_history h)
      → (committed (after_history ((o, at) ∷ h)) ≡ o) × (n ≤ streak o ((o, at) ∷ h))
  unfolding after_history streak
  commit_needs_streak n h o at e some_poll small (oe, obs) changed =
      elim (step_memory (after_history h) o at) [
        | inl (oc, l, p, c) ↦ absurd (changed (last-eq_committed (after_history h) _ l))
        | inr (inl (oc, b, l, p, c)) ↦ absurd (changed (last-eq_committed (after_history h) _ l))
        | inr (inr (oc, b, l, p, c)) ↦
            let tracked = history-Tracks n h e some_poll small obs o oe oc in
            let counted = pending_count_lem n (after_history h) h o small tracked in
            (committed-eq-last _ o l oe, ground (arith, counted, e, b, ==_refl o))
      ]
