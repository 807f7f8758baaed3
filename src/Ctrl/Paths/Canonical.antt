-- ===== src/Ctrl/Paths/Canonical.antt =====
-- internal/agent/ctrlfilter/canonical.go: the canonical paths.
use mathlib.Core.List.{append-nil, append_assoc}
use poolpilot_relay.Prelude.{
  All, Bool, Bool-cases, List, [], all, ap, arith, false, if◌then◌else◌, inl, inr, refl, subst, sym,
  true, ◌++◌, ◌↔◌, ◌∙◌, ◌∷◌, ◌≡◌, ◌⊎◌,
}
use poolpilot_relay.Ctrl.Paths.{
  clean_path, clean_segment, clean_segments, is_allowed, is_canonical_path, slash,
  starts_with_slash,
}
use poolpilot_relay.Ctrl.Paths.Plain.{
  IsPlain, clean_segment-plain, clean_segments-IsPlain, split_on-NoSlash,
}
use poolpilot_relay.Go.Text.{Text, same_text, same_text_iff, split_on}
use poolpilot_relay.Go.Text.Split.{join_on, split_on-append, split_on-lacks}

-- A path and whether it ends in an additional slash.
abbrev pub tail : Bool → Text
tail true = slash ∷ []
tail false = []

abbrev pub spelled : List Text → Bool → Text
spelled segs b = slash ∷ join_on slash segs ++ tail b

last_segment :
    (kept : List Text) (seg : Text) (b : Bool)
    → IsPlain seg
    → clean_segments kept (split_on slash (seg ++ tail b)) ≡ kept ++ (seg ∷ [])
unfolding clean_segments clean_segment split_on
last_segment kept seg true h =
    ap (clean_segments kept) (split_on-append slash seg [] h.3) ∙ clean_segment-plain kept seg h
last_segment kept seg false h =
    ap (λ s. clean_segments kept (split_on slash s)) (append-nil seg)
    ∙ ap (clean_segments kept) (split_on-lacks slash seg h.3)
    ∙ clean_segment-plain kept seg h

clean_segments-spelled :
    (kept segs : List Text) (b : Bool)
    → All IsPlain segs
    → clean_segments kept (split_on slash (join_on slash segs ++ tail b)) ≡ kept ++ segs
unfolding clean_segments clean_segment split_on
clean_segments-spelled kept [] true h = sym (append-nil kept)
clean_segments-spelled kept [] false h = sym (append-nil kept)
clean_segments-spelled kept (seg ∷ []) b h = last_segment kept seg b h.0
clean_segments-spelled kept (seg ∷ next ∷ more) b h =
    let rest : Text = join_on slash (next ∷ more) in
    ap (λ s. clean_segments kept (split_on slash s)) (append_assoc seg (slash ∷ rest) (tail b))
    ∙ ap (clean_segments kept) (split_on-append slash seg (rest ++ tail b) h.0.3)
    ∙ ap (λ k. clean_segments k (split_on slash (rest ++ tail b)))
        (clean_segment-plain kept seg h.0)
    ∙ clean_segments-spelled (kept ++ (seg ∷ [])) (next ∷ more) b h.1
    ∙ append_assoc kept (seg ∷ []) (next ∷ more)

clean_path-spelled :
    (segs : List Text) (b : Bool)
    → All IsPlain segs
    → clean_path (spelled segs b) ≡ slash ∷ join_on slash segs
unfolding clean_path clean_segments clean_segment
clean_path-spelled segs b h =
    ap (λ parts. slash ∷ join_on slash (clean_segments [] parts))
      (split_on-append slash [] (join_on slash segs ++ tail b) refl)
    ∙ ap (λ parts. slash ∷ join_on slash parts) (clean_segments-spelled [] segs b h)

-- Plain segments behind slashes, and at most one slash more at the end.
abbrev pub IsResolved : Text → Type 0
IsResolved p = (segs : List Text) × (b : Bool) × All IsPlain segs × (p ≡ spelled segs b)

cleaned-IsResolved :
    (p : Text) → (clean_path p ≡ p) ⊎ (clean_path p ++ (slash ∷ []) ≡ p) → IsResolved p
unfolding clean_path
cleaned-IsResolved p (inl e) = (
  clean_segments [] (split_on slash p),
  false,
  clean_segments-IsPlain [] (split_on slash p) tt (split_on-NoSlash p),
  sym e ∙ sym (append-nil (clean_path p)),
)
cleaned-IsResolved p (inr e) = (
  clean_segments [] (split_on slash p),
  true,
  clean_segments-IsPlain [] (split_on slash p) tt (split_on-NoSlash p),
  sym e,
)

passes-IsResolved :
    (raw p : Text)
    → is_canonical_path raw p ≡ true
    → (raw ≡ []) × (all is_allowed p ≡ true) × IsResolved p
unfolding is_canonical_path
passes-IsResolved raw p h = (
  ground (arith, h, (same_text_iff raw []).0),
  ground (arith, h),
  cleaned-IsResolved p (elim (Bool-cases (same_text (clean_path p) p)) [
    | inl e ↦ inl ((same_text_iff (clean_path p) p).0 e)
    | inr e ↦ inr ((same_text_iff (clean_path p ++ (slash ∷ [])) p).0 (ground (arith, h, e)))
  ]),
)

pub same_text_refl : (s t : Text) → s ≡ t → same_text s t ≡ true
same_text_refl s t e = (same_text_iff s t).1 e

either_test :
    (clean p : Text)
    → (clean ≡ p) ⊎ (clean ++ (slash ∷ []) ≡ p)
    → (if same_text clean p then true else same_text (clean ++ (slash ∷ [])) p) ≡ true
either_test clean p (inl e) = ground (arith, same_text_refl clean p e)
either_test clean p (inr e) = ground (arith, same_text_refl (clean ++ (slash ∷ [])) p e)

cleaned-passes :
    (p : Text)
    → starts_with_slash p ≡ true
    → all is_allowed p ≡ true
    → (clean_path p ≡ p) ⊎ (clean_path p ++ (slash ∷ []) ≡ p)
    → is_canonical_path [] p ≡ true
unfolding is_canonical_path
cleaned-passes p s a h = rw (s, a) (either_test (clean_path p) p h)

spelled-either :
    (segs : List Text) (b : Bool) (clean : Text)
    → clean ≡ slash ∷ join_on slash segs
    → (clean ≡ spelled segs b) ⊎ (clean ++ (slash ∷ []) ≡ spelled segs b)
spelled-either segs true clean e = inr (ap (λ r. r ++ (slash ∷ [])) e)
spelled-either segs false clean e =
    inl (e ∙ ap (λ r. slash ∷ r) (sym (append-nil (join_on slash segs))))

spelled-passes :
    (segs : List Text) (b : Bool)
    → All IsPlain segs
    → all is_allowed (spelled segs b) ≡ true
    → is_canonical_path [] (spelled segs b) ≡ true
spelled-passes segs b h a =
    cleaned-passes (spelled segs b) refl a
      (spelled-either segs b (clean_path (spelled segs b)) (clean_path-spelled segs b h))

-- A path is let through exactly where the wire's escaping was the default one, no character is a
-- control character, a percent sign or a semicolon, and the path is plain segments behind slashes:
-- none is empty, a dot or two dots, and at most one slash more stands at the end.
pub is_canonical_path_iff :
    (raw p : Text)
    → (is_canonical_path raw p ≡ true) ↔ ((raw ≡ []) × (all is_allowed p ≡ true) × IsResolved p)
is_canonical_path_iff raw p = (
  passes-IsResolved raw p,
  λ (r, a, (segs, b, h, e)).
      subst (λ q. is_canonical_path q p ≡ true) (sym r)
        (subst (λ q. is_canonical_path [] q ≡ true) (sym e)
          (spelled-passes segs b h (subst (λ q. all is_allowed q ≡ true) e a))),
)
