-- ===== src/Update/Run/Forward.antt =====
-- The record of the installed version.
use poolpilot_relay.Prelude.{
  Bool, Option, [], ap, arith, inl, inr, refl, subst, sym, true, ℕ, ◌++◌, ◌∙◌, ◌∷◌, ◌≡◌, ◌≢◌, ◌⊎◌,
}
use poolpilot_relay.Go.Text.{Text, trim_space}
use poolpilot_relay.Update.Assets.{Request, Result}
use poolpilot_relay.Update.Files.{Files, Record, RequestFile, recorded}
use poolpilot_relay.Update.Helper.{
  Config, End, RecordWrite, Surroundings, Work, cut_short, finish, not_opened, record_after, reject,
  well_formed, whole,
}
use poolpilot_relay.Update.Run.{install, restart, run}
use poolpilot_relay.Update.Run.Paths.{
  MayFollow, Passed, Went, first_update, installs, installs_not, moves_on, passes, refuses,
  run-Went, unasked,
}
use poolpilot_relay.Update.Run.ReadBack.{record_reads_back}
use poolpilot_relay.Update.Run.Steps.{
  Installed, Watched, fails, install-Installed, interrupted, replaces, restart-Watched, rolls_back,
  succeeds, there_already,
}
use poolpilot_relay.Update.Version.{newer, valid_tag}
use poolpilot_relay.Update.Version.Order.{newer_chains}

-- How a run may change the record.
abbrev pub MovesOn : Record → Record → Type 0
MovesOn before after =
    (after ≡ before)
    ⊎ ((version : Text) × (from : Text) × (after ≡ recorded (version ++ (10 ∷ [])))
        × (valid_tag version ≡ true)
        × MayFollow version from before)

-- The write of the record is not cut short.
abbrev pub IsNotCut : Surroundings → Type 0
IsNotCut w = (n : ℕ) → w.records ≢ cut_short n

written_or_not :
    (x : RecordWrite) (line : Text) (old : Record)
    → ((n : ℕ) → x ≢ cut_short n)
    → (record_after x line old ≡ old) ⊎ (record_after x line old ≡ recorded line)
unfolding record_after
written_or_not whole line old h = inr refl
written_or_not not_opened line old h = inl refl
written_or_not (cut_short n) line old h = absurd (h n refl)

module _ (verify : Text → Text → Text → Bool) (sha256 : Text → Text) where
  record_kept :
      {w : Surroundings} {req : Request} {mid : Files} {x : Files × End}
      → IsNotCut w
      → Watched w req mid x
      → (x.0.installed ≡ mid.installed) ⊎ (x.0.installed ≡ recorded (req.version ++ (10 ∷ [])))
  record_kept {w} {req} {mid} n (interrupted after a p (q, s, i)) = inl i
  record_kept {w} {req} {mid} n (succeeds after r s a p i) =
      subst (λ r. (r ≡ mid.installed) ⊎ (r ≡ recorded (req.version ++ (10 ∷ [])))) (sym i)
        (written_or_not w.records (req.version ++ (10 ∷ [])) mid.installed n)
  record_kept {w} {req} {mid} n (rolls_back after r s b a p i) = inl i

  installed_record :
      (work : Work) (fs mid : Files) (ok : Bool)
      → Installed sha256 work fs mid ok
      → mid.installed ≡ fs.installed
  installed_record work fs _ _ (there_already h) = refl
  installed_record work fs _ _ (fails mid a p (q, s, i)) = i
  installed_record work fs _ _ (replaces mid n a p (q, s, i)) = i

  went_on :
      (cfg : Config) (w : Surroundings) (req : Request) (work : Work) (from : Text)
      (fs mid after : Files)
      → Passed verify sha256 cfg w req work from fs
      → mid.installed ≡ fs.installed
      → (after.installed ≡ mid.installed) ⊎ (after.installed ≡ recorded (req.version ++ (10 ∷ [])))
      → MovesOn fs.installed after.installed
  unfolding well_formed
  went_on cfg w req work from fs mid after p i (inl e) = inl (e ∙ i)
  went_on cfg w req work from fs mid after (passes r f c v s m) i (inr e) =
      inr (req.version, from, e, ground (arith, f), m)

  Went-MovesOn :
      (cfg : Config) (w : Surroundings) (fs : Files) (x : Files × End)
      → IsNotCut w
      → Went verify sha256 cfg w fs x
      → MovesOn fs.installed x.0.installed
  unfolding reject finish
  Went-MovesOn cfg w fs _ n (unasked e) = inl refl
  Went-MovesOn cfg w fs _ n (refuses req code) = inl refl
  Went-MovesOn cfg w fs _ n (installs_not req work from p e) =
      inl (
        installed_record work fs (install sha256 w work fs).0 _
          (install-Installed sha256 w work fs))
  Went-MovesOn cfg w fs _ n (installs req work from p e) =
      let mid = (install sha256 w work fs).0 in
      went_on cfg w req work from fs mid (restart w req from mid).0 p
        (installed_record work fs mid _ (install-Installed sha256 w work fs))
        (record_kept n (restart-Watched w req from mid))

  -- Runs of the helper, and between them whatever the agent writes where it may.
  pub data Machine : Files → Files → Type 0 where
    starts : {fs : Files} → Machine fs fs
    helps :
        (cfg : Config) (w : Surroundings) {fs gs : Files}
        → Machine fs gs
        → Machine fs (run verify sha256 cfg w gs).0
    agent_writes :
        (request : RequestFile) (staged : Text → Option Text) (health : Option Text)
        (result : Option Result) {fs gs : Files}
        → Machine fs gs
        → Machine fs
            (record gs { request = request; staged = staged; health = health; result = result })

  -- No write of the record is cut short in the runs.
  abbrev pub NeverCut : {fs gs : Files} → Machine fs gs → Type 0
  NeverCut starts = Unit
  NeverCut (helps cfg w m) = IsNotCut w × NeverCut m
  NeverCut (agent_writes _ _ _ _ m) = NeverCut m

  -- A record that is at the version `u` or at a newer one.
  abbrev pub AtLeast : Text → Record → Type 0
  AtLeast u r =
      (v : Text) × (r ≡ recorded v) × ((v ≡ u) ⊎ (newer (trim_space v) (trim_space u) ≡ true))

  follows_newer :
      (version from v : Text) (before : Record)
      → MayFollow version from before
      → before ≡ recorded v
      → newer version (trim_space v) ≡ true
  follows_newer version from v _ (first_update p) e = absurd (ground (arith, e))
  follows_newer version from v _ (moves_on v' p n) e =
      let same : v' ≡ v = ground (arith, e) in
      subst (λ t. newer version t ≡ true) (p ∙ ap trim_space same) n

  moved_on :
      (u : Text) (before after : Record) → AtLeast u before → MovesOn before after → AtLeast u after
  moved_on u before after (v, e, h) (inl same) = (v, same ∙ e, h)
  moved_on u before after (v, e, h) (inr (version, from, written, tag, m)) =
      let ahead : newer (trim_space (version ++ (10 ∷ []))) (trim_space v) ≡ true =
        rw (record_reads_back version tag) (follows_newer version from v before m e) in
      (version ++ (10 ∷ []), written, inr (up h ahead))
    where
      up :
          (v ≡ u) ⊎ (newer (trim_space v) (trim_space u) ≡ true)
          → newer (trim_space (version ++ (10 ∷ []))) (trim_space v) ≡ true
          → newer (trim_space (version ++ (10 ∷ []))) (trim_space u) ≡ true
      up (inl same) n =
          subst (λ t. newer (trim_space (version ++ (10 ∷ []))) (trim_space t) ≡ true) same n
      up (inr more) n = (newer_chains _ _ _ n more).0

  -- Once a version is recorded and no write of the record is cut short, the record never goes back:
  -- whatever the agent writes between the runs of the helper and whatever else fails in them, it
  -- holds that version or a newer one.
  pub Machine-AtLeast :
      (fs gs : Files) (u : Text) (m : Machine fs gs)
      → NeverCut m
      → fs.installed ≡ recorded u
      → AtLeast u gs.installed
  Machine-AtLeast fs _ u starts c e = (u, e, inl refl)
  Machine-AtLeast fs _ u (helps cfg w {gs = gs} m) (n, c) e =
      moved_on u gs.installed _ (Machine-AtLeast fs gs u m c e)
        (Went-MovesOn cfg w gs (run verify sha256 cfg w gs) n (run-Went verify sha256 cfg w gs))
  Machine-AtLeast fs _ u (agent_writes _ _ _ _ {gs = gs} m) c e = Machine-AtLeast fs gs u m c e
