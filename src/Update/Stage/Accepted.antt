-- ===== src/Update/Stage/Accepted.antt =====
-- That the helper takes what the agent staged.
use poolpilot_relay.Prelude.{
  Bool, Bool-cases, Option, Option-cases, ap, arith, false, inl, inr, none, refl, some, subst, sym,
  true, ◌∙◌, ◌≡◌,
}
use poolpilot_relay.Go.Text.{Text, is_empty, same_text, same_text_iff, trim_space}
use poolpilot_relay.Update.Assets.{
  Request, agent_asset, helper_asset, sig_name, sums_name, verify_sums,
}
use poolpilot_relay.Update.Files.{Files, Record, requested}
use poolpilot_relay.Update.Helper.{
  Config, Surroundings, Work, copy_staging, signed_version, well_formed,
}
use poolpilot_relay.Update.Run.{
  answer, apply, check_work, follow, is_signed_version, on_request, run, verify_work,
}
use poolpilot_relay.Update.Run.Paths.{MayFollow, Passed, first_update, moves_on, passes}
use poolpilot_relay.Update.Stage.{
  all_listed, commit_stage, fetch_all, fetch_binaries, fetch_helper, if_signed, request_for, stage,
  staging_of, with_helper,
}
use poolpilot_relay.Update.Version.{newer, valid_tag}

module _ (verify : Text → Text → Text → Bool) (sha256 : Text → Text) where
  helper_kept :
      (sums sig b : Text) (h : Option (Option Text)) (work : Work)
      → with_helper verify sha256 sums sig b h ≡ some work
      → (work.sums ≡ sums) × (work.sig ≡ sig)
  helper_kept sums sig b none work e = absurd (ground (arith, e))
  helper_kept sums sig b (some h) work e = ground (arith, e)

  binaries_kept :
      (cfg : Config) (fetch : Text → Option Text) (sums sig : Text) (work : Work)
      → fetch_binaries verify sha256 cfg fetch sums sig ≡ some work
      → (work.sums ≡ sums) × (work.sig ≡ sig)
  unfolding fetch_binaries
  binaries_kept cfg fetch sums sig work e = elim (Option-cases (fetch (agent_asset cfg.arch))) [
    | inl n ↦ absurd (ground (arith, e, n))
    | inr (b, n) ↦
        helper_kept sums sig b (fetch_helper verify sha256 fetch cfg.arch sums) work
          (ground (arith, e, n))
  ]

  if_signed_lem :
      (cfg : Config) (fetch : Text → Option Text) (s g : Option Text) (work : Work)
      → if_signed verify sha256 cfg fetch s g ≡ some work
      → (verify_sums verify work.sums work.sig cfg.pub_key ≡ true) × (s ≡ some work.sums)
  if_signed_lem cfg fetch none g work e = absurd (ground (arith, e))
  if_signed_lem cfg fetch (some sums) none work e = absurd (ground (arith, e))
  if_signed_lem cfg fetch (some sums) (some sig) work e =
      elim (Bool-cases (verify_sums verify sums sig cfg.pub_key)) [
        | inr v ↦ absurd (ground (arith, e, v))
        | inl v ↦
            let (p, q) = binaries_kept cfg fetch sums sig work (ground (arith, e, v)) in
            rw (p, q) (v, refl)
      ]

  -- The names of the staged files differ.
  apart :
      (arch : Text)
      → (same_text sums_name sig_name ≡ false)
        × (same_text sums_name (agent_asset arch) ≡ false)
        × (same_text sig_name (agent_asset arch) ≡ false)
        × (same_text sums_name (helper_asset arch) ≡ false)
        × (same_text sig_name (helper_asset arch) ≡ false)
        × (same_text (agent_asset arch) (helper_asset arch) ≡ false)
        × (is_empty (helper_asset arch) ≡ false)
  unfolding same_text agent_asset helper_asset
  apart arch = (refl, refl, refl, refl, refl, refl, refl)

  self : (s : Text) → same_text s s ≡ true
  self s = (same_text_iff s s).1 refl

  -- What the staging directory holds under each name.
  staged_names :
      (arch b sums sig : Text) (h : Option Text)
      → let dir = staging_of arch (record { binary = b; sums = sums; sig = sig; helper = h }) in
        (dir (agent_asset arch) ≡ some b)
        × (dir sums_name ≡ some sums)
        × (dir sig_name ≡ some sig)
        × ((f : Text) → h ≡ some f → dir (helper_asset arch) ≡ some f)
  staged_names arch b sums sig none =
      ground (arith, apart arch, self (agent_asset arch), self sums_name, self sig_name)
  staged_names arch b sums sig (some f) = ground (
    arith,
    apart arch,
    self (agent_asset arch),
    self sums_name,
    self sig_name,
    self (helper_asset arch),
  )

  -- Copying what was staged gives the downloads back.
  copied_back :
      (w : Surroundings) (arch version b sums sig : Text) (h : Option Text) (fs : Files)
      → let work : Work = record { binary = b; sums = sums; sig = sig; helper = h } in
        w.copies ≡ true
        → fs.staged ≡ staging_of arch work
        → copy_staging w (request_for arch version work) fs ≡ some work
  unfolding copy_staging
  copied_back w arch version b sums sig none fs c e =
      let (x, y, z, _) = staged_names arch b sums sig none in
      ground (
        arith,
        c,
        ap (λ f. f (agent_asset arch)) e ∙ x,
        ap (λ f. f sums_name) e ∙ y,
        ap (λ f. f sig_name) e ∙ z,
      )
  copied_back w arch version b sums sig (some f) fs c e =
      let (x, y, z, u) = staged_names arch b sums sig (some f) in
      ground (
        arith,
        c,
        apart arch,
        ap (λ f. f (agent_asset arch)) e ∙ x,
        ap (λ f. f sums_name) e ∙ y,
        ap (λ f. f sig_name) e ∙ z,
        ap (λ g. g (helper_asset arch)) e ∙ u f refl,
      )

  well_named :
      (arch version : Text) (work : Work)
      → valid_tag version ≡ true
      → well_formed arch (request_for arch version work) ≡ true
  unfolding well_formed
  well_named arch version work t =
      ground (arith, t, self (agent_asset arch), self (helper_asset arch))

  work_verified :
      (cfg : Config) (version : Text) (work : Work)
      → verify_sums verify work.sums work.sig cfg.pub_key ≡ true
      → all_listed verify sha256 cfg work ≡ true
      → verify_work verify sha256 cfg (request_for cfg.arch version work) work ≡ true
  unfolding verify_work all_listed
  work_verified cfg version work v l = ground (arith, v, l)

  name_signed :
      (cfg : Config) (version : Text) (work : Work)
      → signed_version work.sums ≡ some version
      → is_signed_version (request_for cfg.arch version work) work ≡ true
  unfolding is_signed_version
  name_signed cfg version work s = ground (arith, s, self version)

  committed_stage :
      (cfg : Config) (version : Text) (commits : Bool) (fs : Files) (o : Option Work)
      → (commit_stage verify sha256 cfg version commits fs o).1 ≡ true
      → let after = (commit_stage verify sha256 cfg version commits fs o).0 in
        (work : Work) × (o ≡ some work)
        × (all_listed verify sha256 cfg work ≡ true)
        × (after.request ≡ requested (request_for cfg.arch version work))
        × (after.staged ≡ staging_of cfg.arch work)
        × (after.installed ≡ fs.installed)
  unfolding commit_stage
  committed_stage cfg version commits fs none e = absurd (ground (arith, e))
  committed_stage cfg version commits fs (some work) e =
      elim (Bool-cases (all_listed verify sha256 cfg work)) [
        | inr l ↦ absurd (ground (arith, e, l))
        | inl l ↦ elim (Bool-cases commits) [
          | inr c ↦ absurd (ground (arith, e, l, c))
          | inl c ↦ (
            work,
            refl,
            l,
            rw (l, c, commit_stage),
            rw (l, c, commit_stage),
            rw (l, c, commit_stage),
          )
        ]
      ]

  follow_may :
      (w : Surroundings) (req : Request) (work : Work) (from : Text) (fs : Files) (r : Record)
      → MayFollow req.version from r
      → follow sha256 w req work fs r ≡ apply sha256 w req work from fs
  unfolding follow
  follow_may w req work from fs _ (first_update e) = ap (λ t. apply sha256 w req work t fs) (sym e)
  follow_may w req work from fs _ (moves_on v e n) =
      let newer_one : newer req.version (trim_space v) ≡ true = rw⁻¹ e n in
      rw (newer_one, follow) (ap (λ t. apply sha256 w req work t fs) (sym e))

  goes_through :
      (cfg : Config) (w : Surroundings) (req : Request) (work : Work) (from : Text) (fs : Files)
      → Passed verify sha256 cfg w req work from fs
      → run verify sha256 cfg w fs ≡ apply sha256 w req work from fs
  unfolding run
  goes_through cfg w req work from fs (passes r f c v s m) =
      ap (answer verify sha256 cfg w fs) r
      ∙ (unfold answer on_request check_work in
          rw (f, c, v, s) (follow_may w req work from fs fs.installed m))

  -- What the agent staged and committed passes every check of a helper with the same key and
  -- architecture, which goes on to install it, if the version is a release version that the
  -- manifest names, the record lets it follow, and the files are copied as they are.
  pub stage_accepted :
      (cfg : Config) (version from : Text) (fetch : Text → Option Text) (commits : Bool)
      (w : Surroundings) (fs : Files)
      → (stage verify sha256 cfg version fetch commits fs).1 ≡ true
      → ((sums : Text) → fetch sums_name ≡ some sums → signed_version sums ≡ some version)
      → valid_tag version ≡ true
      → MayFollow version from fs.installed
      → w.copies ≡ true
      → let after = (stage verify sha256 cfg version fetch commits fs).0 in
        (work : Work) × (fetch_all verify sha256 cfg fetch ≡ some work)
        × (run verify sha256 cfg w after
            ≡ apply sha256 w (request_for cfg.arch version work) work from after)
  unfolding stage fetch_all
  stage_accepted cfg version from fetch commits w fs e s t m c =
      let (work, o, l, r, d, i) =
        committed_stage cfg version commits fs (fetch_all verify sha256 cfg fetch) e in
      let after = (stage verify sha256 cfg version fetch commits fs).0 in
      let (v, got) = if_signed_lem cfg fetch (fetch sums_name) (fetch sig_name) work o in
      (
        work,
        o,
        goes_through cfg w (request_for cfg.arch version work) work from after (
            passes r (well_named cfg.arch version work t)
              (copied_back w cfg.arch version work.binary work.sums work.sig work.helper after c d)
              (work_verified cfg version work v l) (name_signed cfg version work (s work.sums got))
              (subst (MayFollow version from) (sym i) m)),
      )
