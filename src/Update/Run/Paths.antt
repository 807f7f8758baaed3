-- ===== src/Update/Run/Paths.antt =====
-- The paths of a run of the helper, each with what it has checked.
use poolpilot_relay.Prelude.{
  Bool, Bool-cases, Option-cases, [], false, inl, inr, refl, some, true, ◌≡◌,
}
use poolpilot_relay.Go.Text.{Text, codes, trim_space}
use poolpilot_relay.Update.Assets.{Request}
use poolpilot_relay.Update.Files.{
  Files, Record, RequestFile, absent, garbled, no_request, recorded, requested, unreadable,
}
use poolpilot_relay.Update.Helper.{
  Config, End, Surroundings, Work, copy_staging, idle, reject, well_formed,
}
use poolpilot_relay.Update.Run.{
  answer, apply, check_work, follow, install, is_signed_version, on_request, restart, run,
  verify_work,
}
use poolpilot_relay.Update.Version.{newer}

-- What the record must say, and what the helper reports as the version that it came from.
pub data MayFollow (version from : Text) : Record → Type 0 where
  first_update : from ≡ [] → MayFollow version from absent
  moves_on :
      (v : Text)
      → from ≡ trim_space v
      → newer version from ≡ true
      → MayFollow version from (recorded v)

module _ (verify : Text → Text → Text → Bool) (sha256 : Text → Text) where
  -- The checks before anything is installed.
  pub data Passed (cfg : Config) (w : Surroundings) (req : Request) (work : Work) (from : Text)
      (fs : Files) : Type 0 where
    passes :
        fs.request ≡ requested req
        → well_formed cfg.arch req ≡ true
        → copy_staging w req fs ≡ some work
        → verify_work verify sha256 cfg req work ≡ true
        → is_signed_version req work ≡ true
        → MayFollow req.version from fs.installed
        → Passed cfg w req work from fs

  pub data Went (cfg : Config) (w : Surroundings) (fs : Files) : Files × End → Type 0 where
    unasked : fs.request ≡ no_request → Went cfg w fs (fs, idle)
    refuses : (req : Request) (code : Text) → Went cfg w fs (reject w req code fs)
    installs_not :
        (req : Request) (work : Work) (from : Text)
        → Passed cfg w req work from fs
        → (install sha256 w work fs).1 ≡ false
        → Went cfg w fs (reject w req (codes "install_failed") (install sha256 w work fs).0)
    installs :
        (req : Request) (work : Work) (from : Text)
        → Passed cfg w req work from fs
        → (install sha256 w work fs).1 ≡ true
        → Went cfg w fs (restart w req from (install sha256 w work fs).0)

  apply-Went :
      (cfg : Config) (w : Surroundings) (req : Request) (work : Work) (from : Text) (fs : Files)
      → Passed cfg w req work from fs
      → Went cfg w fs (apply sha256 w req work from fs)
  unfolding apply
  apply-Went cfg w req work from fs p = elim (Bool-cases (install sha256 w work fs).1) [
    | inl e ↦ rw (e, apply) (installs req work from p e)
    | inr e ↦ rw (e, apply) (installs_not req work from p e)
  ]

  follow-Went :
      (cfg : Config) (w : Surroundings) (req : Request) (work : Work) (fs : Files) (r : Record)
      → ((from : Text) → MayFollow req.version from r → Passed cfg w req work from fs)
      → Went cfg w fs (follow sha256 w req work fs r)
  unfolding follow
  follow-Went cfg w req work fs absent p =
      apply-Went cfg w req work [] fs (p [] (first_update refl))
  follow-Went cfg w req work fs unreadable p = refuses req (codes "records_unreadable")
  follow-Went cfg w req work fs (recorded v) p =
      elim (Bool-cases (newer req.version (trim_space v))) [
        | inl n ↦
            rw (n, follow)
              (apply-Went cfg w req work (trim_space v) fs (p (trim_space v) (moves_on v refl n)))
        | inr n ↦ rw (n, follow) (refuses req (codes "not_newer"))
      ]

  on_request-Went :
      (cfg : Config) (w : Surroundings) (req : Request) (fs : Files)
      → fs.request ≡ requested req
      → Went cfg w fs (on_request verify sha256 cfg w req fs)
  unfolding on_request check_work
  on_request-Went cfg w req fs r = elim (Bool-cases (well_formed cfg.arch req)) [
    | inr e ↦ rw (e, on_request) (refuses req _)
    | inl e ↦ elim (Option-cases (copy_staging w req fs)) [
      | inl c ↦ rw (e, c, on_request) (refuses req _)
      | inr (work, c) ↦ elim (Bool-cases (verify_work verify sha256 cfg req work)) [
        | inr v ↦ rw (e, c, v, on_request, check_work) (refuses req _)
        | inl v ↦ elim (Bool-cases (is_signed_version req work)) [
          | inr s ↦ rw (e, c, v, s, on_request, check_work) (refuses req _)
          | inl s ↦
              rw (e, c, v, s, on_request, check_work)
                (follow-Went cfg w req work fs fs.installed (λ from m. passes r e c v s m))
        ]
      ]
    ]
  ]

  answer-Went :
      (cfg : Config) (w : Surroundings) (fs : Files) (r : RequestFile)
      → fs.request ≡ r
      → Went cfg w fs (answer verify sha256 cfg w fs r)
  unfolding answer
  answer-Went cfg w fs no_request e = unasked e
  answer-Went cfg w fs (garbled req) e = refuses req (codes "bad_request")
  answer-Went cfg w fs (requested req) e = on_request-Went cfg w req fs e

  pub run-Went :
      (cfg : Config) (w : Surroundings) (fs : Files) → Went cfg w fs (run verify sha256 cfg w fs)
  unfolding run
  run-Went cfg w fs = answer-Went cfg w fs fs.request refl
