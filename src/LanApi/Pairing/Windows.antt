-- ===== src/LanApi/Pairing/Windows.antt =====
-- Owner-recovery codes over a history of requests.
use poolpilot_relay.Prelude.{
  Bool, List, Option, Option-cases, String, [], ap, arith, inl, inr, none, some, subst, sym, ◌∙◌,
  ◌∷◌, ◌≡◌, ◌≢◌, ◌⊎◌,
}
use poolpilot_relay.Go.Int64.{add64}
use poolpilot_relay.Go.Time.{Time}
use poolpilot_relay.LanApi.Auth.{Reply, ok}
use poolpilot_relay.LanApi.Pairing.{
  BrokerAnswer, admitted, mark_used, pair_join, pair_recover, recovery_role, verdict,
}
use poolpilot_relay.LanApi.Pairing.Cap.{
  Outcome, admits, pair_join-Outcome, pair_with_voucher-Outcome, turns_away, with_role,
}
use poolpilot_relay.Prelude.Int.{eq_of_parts, pos, ℤ, ◌<ℤ◌}
use poolpilot_relay.Recovery.{verify}
use poolpilot_relay.State.Document.{Device, State}
use poolpilot_relay.Store.{Store, normalize, update}
use poolpilot_relay.Store.Cases.{update-cases}
use poolpilot_relay.Update.Run.{answer}

pub pair_recover-Outcome :
    (code : ℤ → Option String) (s : State) (presented : String) (now : Time) (persists : Bool)
    (dev : Device) (answer : BrokerAnswer) (st : Store)
    → let (st', r) = pair_recover code s presented now persists dev answer st in
      ((w : ℤ) × (verify code presented now (add64 s.recovery_window_used (pos 1)) ≡ some w)
        × Outcome (with_role dev recovery_role answer) (some w) st.doc st'.doc r)
      ⊎ ((r ≢ ok) × (st' ≡ st))
unfolding pair_recover
pair_recover-Outcome code s presented now persists dev answer st =
    elim (Option-cases (verify code presented now (add64 s.recovery_window_used (pos 1)))) [
      | inl e ↦ inr (rw (e, pair_recover) (λ p. absurd (ground (arith, p))), rw (e, pair_recover))
      | inr (w, e) ↦ inl (
        w,
        e,
        rw (e, pair_recover)
            (pair_with_voucher-Outcome s persists dev answer recovery_role (some w) st),
      )
    ]

-- What a recovery that went through has checked and written.
admitted_window :
    (w : ℤ) (s : State)
    → verdict (some w) s ≡ admitted
    → (s.recovery_window_used <ℤ w) × (mark_used (some w) s.recovery_window_used ≡ w)
unfolding verdict mark_used
admitted_window w s e = ground (arith, e, eq_of_parts (mark_used (some w) s.recovery_window_used) w)

-- Requests to one store, each with the snapshot that it happened to read and the time at which it
-- is verified; the list is of the windows whose codes let a device in, oldest first.
pub data History (code : ℤ → Option String) : Store → List ℤ → Store → Type 0 where
  no_more : {st : Store} → History code st [] st
  recovers :
      (s : State) (presented : String) (now : Time) (persists : Bool) (dev : Device)
      (answer : BrokerAnswer) (w : ℤ) {st end : Store} {ws : List ℤ}
      → verify code presented now (add64 s.recovery_window_used (pos 1)) ≡ some w
      → (pair_recover code s presented now persists dev answer st).1 ≡ ok
      → History code (pair_recover code s presented now persists dev answer st).0 ws end
      → History code st (w ∷ ws) end
  turned_away :
      (s : State) (presented : String) (now : Time) (persists : Bool) (dev : Device)
      (answer : BrokerAnswer) {st end : Store} {ws : List ℤ}
      → (pair_recover code s presented now persists dev answer st).1 ≢ ok
      → History code (pair_recover code s presented now persists dev answer st).0 ws end
      → History code st ws end
  joins :
      (s : State) (persists : Bool) (dev : Device) (answer : BrokerAnswer) {st end : Store}
      {ws : List ℤ}
      → History code (pair_join s persists dev answer st).0 ws end
      → History code st ws end
  -- Another handler, whose update leaves the mark alone.
  elsewhere :
      (persists : Bool) (fn : State → State) {st end : Store} {ws : List ℤ}
      → ((d : State) → (fn d).recovery_window_used ≡ d.recovery_window_used)
      → History code (update persists fn st).0 ws end
      → History code st ws end

-- Strictly increasing, and above a mark.
abbrev pub RisesFrom : ℤ → List ℤ → Type 0
RisesFrom mark [] = Unit {0}
RisesFrom mark (w ∷ ws) = (mark <ℤ w) × RisesFrom w ws

module _ (code : ℤ → Option String) where
  recovered :
      (s : State) (presented : String) (now : Time) (persists : Bool) (dev : Device)
      (answer : BrokerAnswer) (w : ℤ) (st : Store)
      → verify code presented now (add64 s.recovery_window_used (pos 1)) ≡ some w
      → (pair_recover code s presented now persists dev answer st).1 ≡ ok
      → (st.doc.recovery_window_used <ℤ w)
        × ((pair_recover code s presented now persists dev answer st).0.doc.recovery_window_used
            ≡ w)
  recovered s presented now persists dev answer w st e o =
      elim (pair_recover-Outcome code s presented now persists dev answer st) [
        | inr (n, _) ↦ absurd (n o)
        | inl (v, f, admits _ a d m) ↦
            let same : v ≡ w = ground (arith, e, f) in
            let fresh_one = admitted_window v st.doc a in
            (rw (sym same) fresh_one.0, m ∙ fresh_one.1 ∙ same)
        | inl (v, f, turns_away n _ _) ↦ absurd (n o)
      ]

  same_mark :
      (dev : Device) (w : Option ℤ) (s t : State) (r : Reply)
      → r ≢ ok
      → Outcome dev w s t r
      → t.recovery_window_used ≡ s.recovery_window_used
  same_mark dev w s t r n (admits o _ _ _) = absurd (n o)
  same_mark dev w s t r n (turns_away _ _ m) = m

  joined_mark :
      (dev : Device) (s t : State) (r : Reply)
      → Outcome dev none s t r
      → t.recovery_window_used ≡ s.recovery_window_used
  unfolding mark_used
  joined_mark dev s t r (admits _ _ _ m) = m
  joined_mark dev s t r (turns_away _ _ m) = m

  away_mark :
      (s : State) (presented : String) (now : Time) (persists : Bool) (dev : Device)
      (answer : BrokerAnswer) (st : Store)
      → (pair_recover code s presented now persists dev answer st).1 ≢ ok
      → (pair_recover code s presented now persists dev answer st).0.doc.recovery_window_used
        ≡ st.doc.recovery_window_used
  away_mark s presented now persists dev answer st n =
      elim (pair_recover-Outcome code s presented now persists dev answer st) [
        | inr (_, e) ↦ ap (λ x. x.doc.recovery_window_used) e
        | inl (v, f, o) ↦ same_mark _ _ _ _ _ n o
      ]

  update_mark :
      (persists : Bool) (fn : State → State) (st : Store)
      → ((d : State) → (fn d).recovery_window_used ≡ d.recovery_window_used)
      → (update persists fn st).0.doc.recovery_window_used ≡ st.doc.recovery_window_used
  unfolding normalize
  update_mark persists fn st keeps = elim (update-cases persists fn st) [
    | inl e ↦ ap (λ x. x.0.doc.recovery_window_used) e ∙ keeps st.doc
    | inr (_, e) ↦ ap (λ x. x.0.doc.recovery_window_used) e
  ]

  from_mark : (m n : ℤ) (ws : List ℤ) → m ≡ n → RisesFrom m ws → RisesFrom n ws
  from_mark m n ws e h = subst (λ x. RisesFrom x ws) e h

  -- However requests, stale snapshots, failures and other writes interleave, the recovery codes
  -- that let a device in are of strictly increasing windows, all above the mark at the start: no
  -- code works twice, and once a code is used no code of its window or an earlier one works.
  pub History-RisesFrom :
      (st end : Store) (ws : List ℤ)
      → History code st ws end
      → RisesFrom st.doc.recovery_window_used ws
  History-RisesFrom st end _ no_more = tt
  History-RisesFrom st end _ (recovers s presented now persists dev answer w {ws} e o h) =
      let (above, marked) = recovered s presented now persists dev answer w st e o in
      (above, from_mark _ w ws marked (History-RisesFrom _ end ws h))
  History-RisesFrom st end ws (turned_away s presented now persists dev answer n h) =
      from_mark _ _ ws (away_mark s presented now persists dev answer st n)
        (History-RisesFrom _ end ws h)
  History-RisesFrom st end ws (joins s persists dev answer h) =
      from_mark _ _ ws (joined_mark _ _ _ _ (pair_join-Outcome s persists dev answer st))
        (History-RisesFrom _ end ws h)
  History-RisesFrom st end ws (elsewhere persists fn keeps h) =
      from_mark _ _ ws (update_mark persists fn st keeps) (History-RisesFrom _ end ws h)
