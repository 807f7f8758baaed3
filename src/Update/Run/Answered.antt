-- ===== src/Update/Run/Answered.antt =====
-- That the helper comes to an end, and answers.
use poolpilot_relay.Prelude.{
  Bool, Bool-cases, List, Option, Option-cases, [], ap, arith, false, if◌then◌else◌, inl, inr,
  length, none, not, refl, some, true, ℕ, ◌*◌, ◌+◌, ◌<◌, ◌∙◌, ◌∷◌, ◌≡◌, ◌≢◌, ◌≤◌,
}
use poolpilot_relay.Go.Text.{Text, same_text, same_text_iff}
use poolpilot_relay.Go.Time.{Time, after}
use poolpilot_relay.Update.Assets.{Request, Result}
use poolpilot_relay.Update.Files.{Files, no_request}
use poolpilot_relay.Update.Helper.{
  Config, End, Look, Surroundings, finish, healthy, reject, reported,
}
use poolpilot_relay.Update.Run.{after_watch, install, restart, rollback, run, succeed, watch_health}
use poolpilot_relay.Update.Run.Paths.{Went, installs, installs_not, refuses, run-Went, unasked}

-- The looks are each at least `poll` after the one before.
abbrev pub Advances : ℕ → Time → List Look → Type 0
Advances poll t [] = Unit {0}
Advances poll t (l ∷ ls) = (t + poll ≤ l.now) × Advances poll l.now ls

later :
    (deadline : Time) (want : Text) (l : Look) (ls : List Look)
    → healthy deadline want (l ∷ ls) ≡ none
    → healthy deadline want ls ≡ none
unfolding healthy
later deadline want l ls e = ground (arith, e)

ends_by :
    (poll : ℕ) (t deadline : Time) (want : Text) (looks : List Look)
    → Advances poll t looks
    → 1 ≤ length looks
    → deadline ≤ t + poll * length looks
    → healthy deadline want looks ≢ none
unfolding healthy
ends_by poll t deadline want [] h n d = absurd (omega (arith, n))
ends_by poll t deadline want (l ∷ []) (h, _) n d = λ e. ground (arith, e, h, d)
ends_by poll t deadline want (l ∷ k ∷ ls) (h, a) n d = λ e.
    ends_by poll l.now deadline want (k ∷ ls) a (omega arith) (omega (arith, d, h))
      (later deadline want l (k ∷ ls) e)

abbrev pub Finished : Surroundings → Files × End → Type 0
Finished w x = (r : Result) × (fs : Files) × (x ≡ finish w r fs)

branch-Finished :
    (w : Surroundings) (b : Bool) (x y : Files × End)
    → Finished w x
    → Finished w y
    → Finished w (if b then x else y)
branch-Finished w true x y h k = h
branch-Finished w false x y h k = k

watch-Finished :
    (w : Surroundings) (req : Request) (from : Text) (fs : Files) (h : Option Bool)
    → h ≢ none
    → Finished w (after_watch w req from fs h)
unfolding after_watch rollback succeed
watch-Finished w req from fs none n = absurd (n refl)
watch-Finished w req from fs (some true) n = (_, _, refl)
watch-Finished w req from fs (some false) n = (_, _, refl)

restart-Finished :
    (w : Surroundings) (req : Request) (from : Text) (fs : Files)
    → healthy w.deadline req.version w.looks ≢ none
    → Finished w (restart w req from fs)
unfolding restart watch_health rollback
restart-Finished w req from fs n =
    branch-Finished w (not w.restarts) _ _ (_, _, refl) (watch-Finished w req from _ _ n)

module _ (verify : Text → Text → Text → Bool) (sha256 : Text → Text) where
  Went-Finished :
      (cfg : Config) (w : Surroundings) (fs : Files) (x : Files × End)
      → ((want : Text) → healthy w.deadline want w.looks ≢ none)
      → fs.request ≢ no_request
      → Went verify sha256 cfg w fs x
      → Finished w x
  unfolding reject
  Went-Finished cfg w fs _ n q (unasked e) = absurd (q e)
  Went-Finished cfg w fs _ n q (refuses req code) = (_, _, refl)
  Went-Finished cfg w fs _ n q (installs_not req work from p e) = (_, _, refl)
  Went-Finished cfg w fs _ n q (installs req work from p e) =
      restart-Finished w req from (install sha256 w work fs).0 (n req.version)

  -- A run that finds a request, with a health watch that looks often enough to reach its deadline,
  -- ends with a result; the request is then gone and the result is in its file, if the removal and
  -- the write succeed.
  pub run_answers :
      (cfg : Config) (w : Surroundings) (fs : Files) (poll : ℕ) (t : Time)
      → fs.request ≢ no_request
      → Advances poll t w.looks
      → 1 ≤ length w.looks
      → w.deadline ≤ t + poll * length w.looks
      → let (after, end) = run verify sha256 cfg w fs in
        (r : Result) × (end ≡ reported r)
        × (w.removes_request ≡ true → after.request ≡ no_request)
        × (w.writes_result ≡ true → after.result ≡ some r)
  unfolding finish
  run_answers cfg w fs poll t q a n d =
      let (r, gs, e) =
        Went-Finished cfg w fs (run verify sha256 cfg w fs)
          (λ want. ends_by poll t w.deadline want w.looks a n d) q
          (run-Went verify sha256 cfg w fs) in
      (
        r,
        ap (λ x. x.1) e,
        λ g. ap (λ x. x.0.request) e ∙ ground (arith, g),
        λ g. ap (λ x. x.0.result) e ∙ ground (arith, g),
      )

-- A watch says that the new agent is well exactly on a look, with the unit up so far and no look
-- before it past the deadline, that finds the marker of the version that was asked for.
pub data WellAt (deadline : Time) (want : Text) : List Look → Type 0 where
  at_once :
      (l : Look) (ls : List Look)
      → l.failed ≡ false
      → l.marker ≡ some want
      → WellAt deadline want (l ∷ ls)
  later_on :
      (l : Look) (ls : List Look)
      → l.failed ≡ false
      → l.now < deadline
      → WellAt deadline want ls
      → WellAt deadline want (l ∷ ls)

pub healthy_well :
    (deadline : Time) (want : Text) (looks : List Look)
    → healthy deadline want looks ≡ some true
    → WellAt deadline want looks
unfolding healthy
healthy_well deadline want [] h = absurd (ground (arith, h))
healthy_well deadline want (l ∷ ls) h = elim (Option-cases l.marker) [
  | inl e ↦
      later_on l ls (ground (arith, h, e)) (ground (arith, h, e))
        (healthy_well deadline want ls (ground (arith, h, e)))
  | inr (v, e) ↦ elim (Bool-cases (same_text v want)) [
    | inl s ↦ at_once l ls (ground (arith, h, e)) (e ∙ ap some ((same_text_iff v want).0 s))
    | inr s ↦
        later_on l ls (ground (arith, h, e, s)) (ground (arith, h, e, s))
          (healthy_well deadline want ls (ground (arith, h, e, s)))
  ]
]
