-- ===== src/Update/Run/Steps.antt =====
-- What the installation and what follows it leave in the files.
use poolpilot_relay.Prelude.{
  Bool, Bool-cases, Option, [], arith, false, if◌then◌else◌, inl, inr, is_some, none, not, refl,
  some, true, ◌&&◌, ◌++◌, ◌∷◌, ◌≡◌, ◌≢◌, ◌⊎◌,
}
use poolpilot_relay.Go.Text.{Text, codes}
use poolpilot_relay.Update.Assets.{Request, Result}
use poolpilot_relay.Update.Files.{Files}
use poolpilot_relay.Update.Helper.{
  End, Surroundings, Work, cut_off, finish, healthy, record_after, reported, rolled_back,
}
use poolpilot_relay.Update.Run.{
  after_watch, already_installed, back_up_and_install, install, install_agent, replace_helper,
  restart, rollback, succeed, watch_health,
}

-- The files that only the end of a run changes.
abbrev pub SameQueue : Files → Files → Type 0
SameQueue before after =
    (after.request ≡ before.request)
    × (after.staged ≡ before.staged)
    × (after.installed ≡ before.installed)

-- The three ends of the installation.
pub data Installed (sha256 : Text → Text) (work : Work) (before : Files)
    : Files → Bool → Type 0 where
  there_already :
      already_installed sha256 work before ≡ true → Installed sha256 work before before true
  fails :
      (after : Files)
      → after.agent ≡ before.agent
      → (after.previous ≡ before.previous) ⊎ (after.previous ≡ before.agent)
      → SameQueue before after
      → Installed sha256 work before after false
  replaces :
      (after : Files)
      → already_installed sha256 work before ≡ false
      → after.agent ≡ some work.binary
      → after.previous ≡ before.agent
      → SameQueue before after
      → Installed sha256 work before after true

same_queue : (fs : Files) → SameQueue fs fs
same_queue fs = (refl, refl, refl)

install_agent-Installed :
    (sha256 : Text → Text) (w : Surroundings) (work : Work) (before fs : Files)
    → already_installed sha256 work before ≡ false
    → fs.agent ≡ before.agent
    → fs.previous ≡ before.agent
    → SameQueue before fs
    → Installed sha256 work before (install_agent w work fs).0 (install_agent w work fs).1
unfolding install_agent
install_agent-Installed sha256 w work before fs n a p q = elim (Bool-cases w.installs_agent) [
  | inl e ↦ rw (e, install_agent) (replaces (record fs { agent = some work.binary }) n refl p q)
  | inr e ↦ rw (e, install_agent) (fails fs a (inr p) q)
]

-- `fs` is what the self-replacement of the helper left of `before`.
back_up-Installed :
    (sha256 : Text → Text) (w : Surroundings) (work : Work) (before fs : Files)
    (found : Option Text)
    → already_installed sha256 work before ≡ false
    → fs.agent ≡ before.agent
    → found ≡ before.agent
    → fs.previous ≡ before.previous
    → SameQueue before fs
    → let (after, installed) = back_up_and_install w work fs found in
      Installed sha256 work before after installed
unfolding back_up_and_install install_agent
back_up-Installed sha256 w work before fs none n a f p q = fails fs a (inl p) q
back_up-Installed sha256 w work before fs (some old) n a f p q = elim (Bool-cases w.backs_up) [
  | inl e ↦
      rw (e, back_up_and_install)
        (install_agent-Installed sha256 w work before (record fs { previous = some old }) n a f q)
  | inr e ↦ rw (e, back_up_and_install) (fails fs a (inl p) q)
]

replaced_helper :
    (h : Option Text) (fs : Files)
    → let fs' = replace_helper h fs in
      (fs'.agent ≡ fs.agent) × (fs'.previous ≡ fs.previous) × SameQueue fs fs'
unfolding replace_helper
replaced_helper none fs = (refl, refl, same_queue fs)
replaced_helper (some h) fs = (refl, refl, same_queue fs)

pub install-Installed :
    (sha256 : Text → Text) (w : Surroundings) (work : Work) (fs : Files)
    → let (after, installed) = install sha256 w work fs in Installed sha256 work fs after installed
unfolding install
install-Installed sha256 w work fs = elim (Bool-cases (already_installed sha256 work fs)) [
  | inl e ↦ rw (e, install) (there_already e)
  | inr e ↦ elim (Bool-cases (is_some work.helper && not w.installs_helper)) [
    | inl h ↦ rw (e, h, install) (fails fs refl (inl refl) (same_queue fs))
    | inr h ↦
        let (a, p, q) = replaced_helper work.helper fs in
        rw (e, h, install)
          (back_up-Installed sha256 w work fs (replace_helper work.helper fs) _ e a a p q)
  ]
]

-- The ends of the restart and the health watch.
pub data Watched (w : Surroundings) (req : Request) (before : Files) : Files × End → Type 0 where
  interrupted :
      (after : Files)
      → after.agent ≡ before.agent
      → after.previous ≡ before.previous
      → SameQueue before after
      → Watched w req before (after, cut_off)
  succeeds :
      (after : Files) (r : Result)
      → r.status ≡ codes "ok"
      → after.agent ≡ before.agent
      → after.previous ≡ before.previous
      → after.installed ≡ record_after w.records (req.version ++ (10 ∷ [])) before.installed
      → Watched w req before (after, reported r)
  rolls_back :
      (after : Files) (r : Result)
      → r.status ≡ codes "rolled_back"
      → (w.restores ≡ true → before.previous ≢ none → after.agent ≡ before.previous)
      → (after.agent ≡ before.agent) ⊎ (after.agent ≡ before.previous)
      → after.previous ≡ before.previous
      → after.installed ≡ before.installed
      → Watched w req before (after, reported r)

rollback-Watched :
    (w : Surroundings) (req : Request) (from code : Text) (fs : Files)
    → Watched w req fs (rollback w req from code fs)
unfolding rollback finish rolled_back
rollback-Watched w req from code fs = elim (Bool-cases (w.restores && is_some fs.previous)) [
  | inl e ↦ rw (e, rollback) (rolls_back _ _ refl (λ r n. refl) (inr refl) refl refl)
  | inr e ↦
      rw (e, rollback) (rolls_back _ _ refl (λ r n. ground (arith, e, r, n)) (inl refl) refl refl)
]

succeed-Watched :
    (w : Surroundings) (req : Request) (from : Text) (fs : Files)
    → Watched w req fs (succeed w req from fs)
unfolding succeed finish
succeed-Watched w req from fs = succeeds _ _ refl refl refl refl

branch-Watched :
    (w : Surroundings) (req : Request) (fs : Files) (b : Bool) (x y : Files × End)
    → Watched w req fs x
    → Watched w req fs y
    → Watched w req fs (if b then x else y)
branch-Watched w req fs true x y h k = h
branch-Watched w req fs false x y h k = k

verdict-Watched :
    (w : Surroundings) (req : Request) (from : Text) (fs : Files) (h : Option Bool)
    → Watched w req fs (after_watch w req from fs h)
unfolding after_watch
verdict-Watched w req from fs none = interrupted fs refl refl (same_queue fs)
verdict-Watched w req from fs (some true) = succeed-Watched w req from fs
verdict-Watched w req from fs (some false) = rollback-Watched w req from _ fs

watch_health-Watched :
    (w : Surroundings) (req : Request) (from : Text) (fs : Files)
    → Watched w req fs (watch_health w req from fs)
unfolding watch_health
watch_health-Watched w req from fs =
    branch-Watched w req fs (not w.restarts) _ _ (rollback-Watched w req from _ fs)
      (verdict-Watched w req from fs (healthy w.deadline req.version w.looks))

-- The health marker is none of the files that this is about.
unmarked :
    (w : Surroundings) (req : Request) (fs : Files) (m : Option Text) (x : Files × End)
    → Watched w req (record fs { health = m }) x
    → Watched w req fs x
unmarked w req fs m x (interrupted after a p q) = interrupted after a p q
unmarked w req fs m x (succeeds after r s a p i) = succeeds after r s a p i
unmarked w req fs m x (rolls_back after r s b a p i) = rolls_back after r s b a p i

pub restart-Watched :
    (w : Surroundings) (req : Request) (from : Text) (fs : Files)
    → Watched w req fs (restart w req from fs)
unfolding restart
restart-Watched w req from fs = unmarked w req fs _ _ (watch_health-Watched w req from _)
