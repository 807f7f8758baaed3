-- ===== src/Update/Run/Restored.antt =====
-- Rolling back, also after runs that were cut off in the health watch.
use poolpilot_relay.Prelude.{
  Bool, Option-cases, ap, arith, false, inl, inr, refl, some, subst, sym, true, ◌∙◌, ◌≡◌, ◌⊎◌,
}
use poolpilot_relay.Go.Text.{Text, codes, same_text, same_text_iff}
use poolpilot_relay.Go.Time.{after}
use poolpilot_relay.Update.Assets.{Request, Result, agent_asset}
use poolpilot_relay.Update.Files.{Files}
use poolpilot_relay.Update.Helper.{
  Config, End, Surroundings, Work, copy_staging, cut_off, finish, reject, rejected, reported,
  well_formed,
}
use poolpilot_relay.Update.Run.{already_installed, install, run}
use poolpilot_relay.Update.Run.Paths.{
  Passed, Went, installs, installs_not, passes, refuses, run-Went, unasked,
}
use poolpilot_relay.Update.Run.Steps.{
  Installed, Watched, install-Installed, interrupted, replaces, restart-Watched, rolls_back,
  succeeds, there_already,
}

module _ (verify : Text → Text → Text → Bool) (sha256 : Text → Text) where
  -- The staged agent is not the one that runs, as far as their hashes tell.
  abbrev pub NotYet : Config → Files → Type 0
  NotYet cfg fs =
      (a b : Text)
      → fs.agent ≡ some a
      → fs.staged (agent_asset cfg.arch) ≡ some b
      → same_text (sha256 a) (sha256 b) ≡ false

  -- Runs that were cut off, one after the other: the helper died in the health watch, and the
  -- request that it left behind starts it again.
  pub data Interrupted (cfg : Config) (fs : Files) : Files → Type 0 where
    untouched : Interrupted cfg fs fs
    once_more :
        (w : Surroundings) {gs : Files}
        → Interrupted cfg fs gs
        → (run verify sha256 cfg w gs).1 ≡ cut_off
        → Interrupted cfg fs (run verify sha256 cfg w gs).0

  abbrev Installing : Config → Files → Files → Type 0
  Installing cfg fs gs =
      (gs.previous ≡ fs.agent)
      × (gs.agent ≡ fs.staged (agent_asset cfg.arch))
      × (gs.staged ≡ fs.staged)

  abbrev Pending : Config → Files → Files → Type 0
  Pending cfg fs gs = ((gs.agent ≡ fs.agent) × (gs.staged ≡ fs.staged)) ⊎ Installing cfg fs gs

  copied :
      (w : Surroundings) (req : Request) (fs : Files) (work : Work)
      → copy_staging w req fs ≡ some work
      → fs.staged req.binary ≡ some work.binary
  unfolding copy_staging
  copied w req fs work h = ground (arith, h)

  same_hash : (s : Text) → same_text s s ≡ true
  same_hash s = (same_text_iff s s).1 refl

  compared :
      (work : Work) (gs : Files) (a : Text)
      → gs.agent ≡ some a
      → already_installed sha256 work gs ≡ same_text (sha256 a) (sha256 work.binary)
  unfolding already_installed
  compared work gs a e = ground (arith, e)

  somebody :
      (work : Work) (gs : Files)
      → already_installed sha256 work gs ≡ true
      → (a : Text) × (gs.agent ≡ some a)
  unfolding already_installed
  somebody work gs h = elim (Option-cases gs.agent) [
    | inl e ↦ absurd (ground (arith, h, e))
    | inr s ↦ s
  ]

  ready :
      (cfg : Config) (w : Surroundings) (req : Request) (work : Work) (fs gs mid : Files)
      → NotYet cfg fs
      → Pending cfg fs gs
      → gs.staged (agent_asset cfg.arch) ≡ some work.binary
      → Installed sha256 work gs mid true
      → Installing cfg fs mid
  ready cfg w req work fs gs _ n (inr i) c (there_already h) = i
  ready cfg w req work fs gs _ n (inl (a, s)) c (there_already h) =
      let (x, e) = somebody work gs h in
      let differ : same_text (sha256 x) (sha256 work.binary) ≡ false =
        n x work.binary (sym a ∙ e) (sym (ap (λ f. f (agent_asset cfg.arch)) s) ∙ c) in
      absurd (ground (arith, h, compared work gs x e, differ))
  ready cfg w req work fs gs _ n (inl (a, s)) c (replaces mid m b p (q, t, i)) =
      (p ∙ a, b ∙ sym c ∙ ap (λ f. f (agent_asset cfg.arch)) s, t ∙ s)
  ready cfg w req work fs gs _ n (inr (o, a, s)) c (replaces mid m b p (q, t, i)) =
      let there : gs.agent ≡ some work.binary =
        a ∙ sym (ap (λ f. f (agent_asset cfg.arch)) s) ∙ c in
      absurd (ground (arith, m, compared work gs work.binary there, same_hash (sha256 work.binary)))

  found :
      (cfg : Config) (w : Surroundings) (req : Request) (work : Work) (from : Text) (gs : Files)
      → Passed verify sha256 cfg w req work from gs
      → gs.staged (agent_asset cfg.arch) ≡ some work.binary
  unfolding well_formed
  found cfg w req work from gs (passes r f c v s m) =
      let name : req.binary ≡ agent_asset cfg.arch =
        ground (arith, f, same_text_iff req.binary (agent_asset cfg.arch)) in
      ap gs.staged (sym name) ∙ copied w req gs work c

  cut :
      {w : Surroundings} {req : Request} {mid : Files} {x : Files × End} (cfg : Config) (fs : Files)
      → Installing cfg fs mid
      → Watched w req mid x
      → x.1 ≡ cut_off
      → Installing cfg fs x.0
  cut cfg fs (p, a, s) (interrupted after b q (r, t, i)) e = (q ∙ p, b ∙ a, t ∙ s)
  cut cfg fs h (succeeds after r s a p i) e = absurd (ground (arith, e))
  cut cfg fs h (rolls_back after r s b a p i) e = absurd (ground (arith, e))

  restored :
      {w : Surroundings} {req : Request} {mid : Files} {x : Files × End} (cfg : Config) (fs : Files)
      (old : Text) (r : Result)
      → fs.agent ≡ some old
      → w.restores ≡ true
      → Installing cfg fs mid
      → Watched w req mid x
      → x.1 ≡ reported r
      → r.status ≡ codes "rolled_back"
      → x.0.agent ≡ some old
  restored cfg fs old r o z h (interrupted after b q i) e b' = absurd (ground (arith, e))
  restored cfg fs old r o z h (succeeds after r' s a p i) e b = absurd (ground (arith, e, s, b))
  restored cfg fs old r o z (p, _, _) (rolls_back after r' s back a q i) e b =
      back z (λ none_there. absurd (ground (arith, p, o, none_there))) ∙ p ∙ o

  step :
      (cfg : Config) (w : Surroundings) (fs gs : Files) (x : Files × End)
      → NotYet cfg fs
      → Pending cfg fs gs
      → Went verify sha256 cfg w gs x
      → (x.1 ≡ cut_off → Pending cfg fs x.0)
        × ((old : Text) (r : Result)
            → fs.agent ≡ some old
            → w.restores ≡ true
            → x.1 ≡ reported r
            → r.status ≡ codes "rolled_back"
            → x.0.agent ≡ some old)
  unfolding reject finish rejected
  step cfg w fs gs _ n p (unasked e) =
      (λ h. absurd (ground (arith, h)), λ old r o z h b. absurd (ground (arith, h)))
  step cfg w fs gs _ n p (refuses req code) =
      (λ h. absurd (ground (arith, h)), λ old r o z h b. absurd (ground (arith, h, b)))
  step cfg w fs gs _ n p (installs_not req work from q e) =
      (λ h. absurd (ground (arith, h)), λ old r o z h b. absurd (ground (arith, h, b)))
  step cfg w fs gs _ n p (installs req work from q e) =
      let mid = (install sha256 w work gs).0 in
      let ends = restart-Watched w req from mid in
      let i : Installing cfg fs mid =
        ready cfg w req work fs gs mid n p (found cfg w req work from gs q)
          (subst (Installed sha256 work gs mid) e (install-Installed sha256 w work gs)) in
      (λ h. inr (cut cfg fs i ends h), λ old r o z h b. restored cfg fs old r o z i ends h b)

  Interrupted-Pending :
      (cfg : Config) (fs gs : Files) → NotYet cfg fs → Interrupted cfg fs gs → Pending cfg fs gs
  Interrupted-Pending cfg fs _ n untouched = inl (refl, refl)
  Interrupted-Pending cfg fs _ n (once_more w {gs = gs} i h) =
      (step cfg w fs gs (run verify sha256 cfg w gs) n (Interrupted-Pending cfg fs gs n i)
          (run-Went verify sha256 cfg w gs)).0
        h

  -- If the helper was cut off in the health watch any number of times, or never, and then a run
  -- reports that it rolled back, with the copy of the backup going through, the agent's binary is
  -- the one from before the first run: the retries did not overwrite the backup with the new one.
  pub rollback_restores :
      (cfg : Config) (w : Surroundings) (fs gs : Files) (old : Text) (r : Result)
      → NotYet cfg fs
      → fs.agent ≡ some old
      → Interrupted cfg fs gs
      → w.restores ≡ true
      → (run verify sha256 cfg w gs).1 ≡ reported r
      → r.status ≡ codes "rolled_back"
      → (run verify sha256 cfg w gs).0.agent ≡ some old
  rollback_restores cfg w fs gs old r n o i z h b =
      (step cfg w fs gs (run verify sha256 cfg w gs) n (Interrupted-Pending cfg fs gs n i)
          (run-Went verify sha256 cfg w gs)).1
        old r o z h b
