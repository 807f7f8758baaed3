-- ===== src/Update/Run/Verified.antt =====
-- What the helper lets become the agent's binary.
use poolpilot_relay.Prelude.{
  Bool, Option-cases, arith, false, inl, inr, refl, some, subst, sym, true, ◌∙◌, ◌≡◌, ◌⊎◌,
}
use poolpilot_relay.Go.Text.{Text, same_text_iff}
use poolpilot_relay.Update.Assets.{Request, agent_asset, asset_sum, verify_file, verify_sums}
use poolpilot_relay.Update.Files.{Files}
use poolpilot_relay.Update.Helper.{
  Config, End, Surroundings, Work, finish, reject, signed_version, well_formed,
}
use poolpilot_relay.Update.Run.{install, is_listed, is_signed_version, restart, run, verify_work}
use poolpilot_relay.Update.Run.Paths.{
  MayFollow, Passed, Went, installs, installs_not, passes, refuses, run-Went, unasked,
}
use poolpilot_relay.Update.Run.Steps.{
  Installed, Watched, fails, install-Installed, interrupted, replaces, restart-Watched, rolls_back,
  succeeds, there_already,
}
use poolpilot_relay.Update.Version.{valid_tag}

module _ (verify : Text → Text → Text → Bool) (sha256 : Text → Text) where
  -- A manifest signed with the helper's own key names the version, and lists for the agent's asset
  -- of this machine the hash of the file.
  abbrev pub IsRelease : Config → Text → Text → Type 0
  IsRelease cfg file version =
      (sums : Text) × (sig : Text) × (sum : Text) × (verify_sums verify sums sig cfg.pub_key ≡ true)
      × (asset_sum sums (agent_asset cfg.arch) ≡ some sum)
      × (verify_file sha256 file sum ≡ true)
      × (signed_version sums ≡ some version)

  listed :
      (sums name file : Text)
      → is_listed sha256 sums name file ≡ true
      → (sum : Text) × (asset_sum sums name ≡ some sum) × (verify_file sha256 file sum ≡ true)
  unfolding is_listed
  listed sums name file h = elim (Option-cases (asset_sum sums name)) [
    | inl e ↦ absurd (ground (arith, h, e))
    | inr (sum, e) ↦ (sum, e, ground (arith, h, e))
  ]

  signed :
      (req : Request) (work : Work)
      → is_signed_version req work ≡ true
      → signed_version work.sums ≡ some req.version
  unfolding is_signed_version
  signed req work h = elim (Option-cases (signed_version work.sums)) [
    | inl e ↦ absurd (ground (arith, h, e))
    | inr (v, e) ↦ ground (arith, h, e, same_text_iff req.version v)
  ]

  verified :
      (cfg : Config) (req : Request) (work : Work)
      → verify_work verify sha256 cfg req work ≡ true
      → (verify_sums verify work.sums work.sig cfg.pub_key ≡ true)
        × (is_listed sha256 work.sums req.binary work.binary ≡ true)
  unfolding verify_work
  verified cfg req work h = ground (arith, h)

  named :
      (arch : Text) (req : Request)
      → well_formed arch req ≡ true
      → (req.binary ≡ agent_asset arch) × (valid_tag req.version ≡ true)
  unfolding well_formed
  named arch req h = ground (arith, h, same_text_iff req.binary (agent_asset arch))

  pub Passed-IsRelease :
      (cfg : Config) (w : Surroundings) (req : Request) (work : Work) (from : Text) (fs : Files)
      → Passed verify sha256 cfg w req work from fs
      → IsRelease cfg work.binary req.version
  Passed-IsRelease cfg w req work from fs (passes r f c v s m) =
      let (sums, binary) = verified cfg req work v in
      let (sum, in_list, matches) = listed work.sums req.binary work.binary binary in
      let name = (named cfg.arch req f).0 in
      (work.sums, work.sig, sum, sums, rw⁻¹ name in_list, matches, signed req work s)

  -- What may stand as the agent's binary after a run: what stood there, the backup, or a release
  -- that may follow the recorded one.
  abbrev pub IsAllowed : Config → Files → Files → Type 0
  IsAllowed cfg before after =
      (after.agent ≡ before.agent)
      ⊎ ((after.agent ≡ after.previous)
          × ((after.previous ≡ before.previous) ⊎ (after.previous ≡ before.agent)))
      ⊎ ((file : Text) × (version : Text) × (from : Text) × (after.agent ≡ some file)
          × IsRelease cfg file version
          × MayFollow version from before.installed)

  -- The agent's binary does not change from `mid` on but by a rollback.
  end_of :
      {w : Surroundings} {req : Request} {mid : Files} {x : Files × End}
      → Watched w req mid x
      → (x.0.previous ≡ mid.previous) × ((x.0.agent ≡ mid.agent) ⊎ (x.0.agent ≡ mid.previous))
  end_of (interrupted after a p q) = (p, inl a)
  end_of (succeeds after r s a p i) = (p, inl a)
  end_of (rolls_back after r s b a p i) = (p, a)

  combine :
      (cfg : Config) (w : Surroundings) (req : Request) (work : Work) (from : Text) (fs mid : Files)
      (x : Files × End)
      → Passed verify sha256 cfg w req work from fs
      → Installed sha256 work fs mid true
      → (x.0.previous ≡ mid.previous) × ((x.0.agent ≡ mid.agent) ⊎ (x.0.agent ≡ mid.previous))
      → IsAllowed cfg fs x.0
  combine cfg w req work from fs _ x p (there_already h) (pv, inl a) = inl a
  combine cfg w req work from fs _ x p (there_already h) (pv, inr a) =
      inr (inl (a ∙ sym pv, inl pv))
  combine cfg w req work from fs _ x p (replaces mid n a old q) (pv, inl b) = inr (
      inr (
        work.binary,
        req.version,
        from,
        b ∙ a,
        Passed-IsRelease cfg w req work from fs p,
        follows p,
      ))
    where
      follows :
          Passed verify sha256 cfg w req work from fs → MayFollow req.version from fs.installed
      follows (passes r f c v s m) = m
  combine cfg w req work from fs _ x p (replaces mid n a old q) (pv, inr b) =
      inr (inl (b ∙ sym pv, inr (pv ∙ old)))

  left_alone :
      (work : Work) (fs mid : Files) → Installed sha256 work fs mid false → mid.agent ≡ fs.agent
  left_alone work fs _ (fails mid a p q) = a

  allowed :
      (cfg : Config) (w : Surroundings) (fs : Files) (x : Files × End)
      → Went verify sha256 cfg w fs x
      → IsAllowed cfg fs x.0
  unfolding reject finish
  allowed cfg w fs _ (unasked e) = inl refl
  allowed cfg w fs _ (refuses req code) = inl refl
  allowed cfg w fs _ (installs_not req work from p e) = inl (
      left_alone work fs (install sha256 w work fs).0 (
        subst (Installed sha256 work fs (install sha256 w work fs).0) e
          (install-Installed sha256 w work fs)))
  allowed cfg w fs _ (installs req work from p e) =
      combine cfg w req work from fs (install sha256 w work fs).0
        (restart w req from (install sha256 w work fs).0) p
        (subst (Installed sha256 work fs (install sha256 w work fs).0) e
          (install-Installed sha256 w work fs))
        (end_of (restart-Watched w req from (install sha256 w work fs).0))

  -- Whatever the request, the staging directory and the failures on the way, after a run of the
  -- helper the agent's binary is the one that was there, the backup of it or the one before, or a
  -- file whose hash a manifest lists that is signed with the helper's own key, of the version that
  -- this manifest names, which is newer than the recorded one, if there is a record.
  pub run-IsAllowed :
      (cfg : Config) (w : Surroundings) (fs : Files)
      → IsAllowed cfg fs (run verify sha256 cfg w fs).0
  run-IsAllowed cfg w fs = allowed cfg w fs _ (run-Went verify sha256 cfg w fs)
