-- ===== src/Ctrl/Paths/Plain.antt =====
-- internal/agent/ctrlfilter/canonical.go: what path.Clean keeps.
use poolpilot_relay.Prelude.{
  All, All-append, Bool-cases, List, [], arith, eqb, false, inl, inr, refl, subst, sym, true, ℕ,
  ◌++◌, ◌||◌, ◌∷◌, ◌≡◌, ◌⊎◌,
}
use poolpilot_relay.Ctrl.Paths.{clean_segment, clean_segments, drop_last, slash}
use poolpilot_relay.Go.Text.{Text, codes, extend, is_empty, same_text, split_on}
use poolpilot_relay.Go.Text.Split.{lacks}

-- A segment that names something: not empty, no dot-segment, no slash inside.
abbrev pub IsPlain : Text → Type 0
IsPlain seg =
    (is_empty seg ≡ false)
    × (same_text seg (codes ".") ≡ false)
    × (same_text seg (codes "..") ≡ false)
    × (lacks slash seg ≡ true)

drop_last-IsPlain : (kept : List Text) → All IsPlain kept → All IsPlain (drop_last kept)
drop_last-IsPlain [] h = h
drop_last-IsPlain (x ∷ []) h = h.1
drop_last-IsPlain (x ∷ y ∷ more) h = (h.0, drop_last-IsPlain (y ∷ more) h.1)

clean_segment-cases :
    (kept : List Text) (seg : Text)
    → (clean_segment kept seg ≡ kept)
      ⊎ (clean_segment kept seg ≡ drop_last kept)
      ⊎ ((clean_segment kept seg ≡ kept ++ (seg ∷ []))
          × (is_empty seg ≡ false)
          × (same_text seg (codes ".") ≡ false)
          × (same_text seg (codes "..") ≡ false))
unfolding clean_segment
clean_segment-cases kept seg = elim (Bool-cases (is_empty seg || same_text seg (codes "."))) [
  | inl e ↦ inl (ground (arith, e))
  | inr e ↦ elim (Bool-cases (same_text seg (codes ".."))) [
    | inl f ↦ inr (inl (ground (arith, e, f)))
    | inr f ↦ inr (inr (ground (arith, e, f), ground (arith, e), ground (arith, e), f))
  ]
]

clean_segment-IsPlain :
    (kept : List Text) (seg : Text)
    → All IsPlain kept
    → lacks slash seg ≡ true
    → All IsPlain (clean_segment kept seg)
clean_segment-IsPlain kept seg h l = elim (clean_segment-cases kept seg) [
  | inl e ↦ subst (All IsPlain) (sym e) h
  | inr (inl e) ↦ subst (All IsPlain) (sym e) (drop_last-IsPlain kept h)
  | inr (inr (e, a, b, d)) ↦
      subst (All IsPlain) (sym e) (All-append IsPlain kept (seg ∷ []) h ((a, b, d, l), tt))
]

abbrev pub NoSlash : Text → Type 0
NoSlash seg = lacks slash seg ≡ true

pub clean_segments-IsPlain :
    (kept segs : List Text)
    → All IsPlain kept
    → All NoSlash segs
    → All IsPlain (clean_segments kept segs)
unfolding clean_segments
clean_segments-IsPlain kept [] h l = h
clean_segments-IsPlain kept (seg ∷ segs) h l =
    clean_segments-IsPlain (clean_segment kept seg) segs (clean_segment-IsPlain kept seg h l.0) l.1

extend-NoSlash :
    (c : ℕ) (parts : List Text)
    → eqb c slash ≡ false
    → All NoSlash parts
    → All NoSlash (extend c parts)
extend-NoSlash c [] h l = (ground (arith, h), tt)
extend-NoSlash c (p ∷ ps) h l = (ground (arith, h, l.0), l.1)

pub split_on-NoSlash : (p : Text) → All NoSlash (split_on slash p)
unfolding split_on
split_on-NoSlash [] = (refl, tt)
split_on-NoSlash (c ∷ p) = elim (Bool-cases (eqb c slash)) [
  | inl e ↦ rw e (refl, split_on-NoSlash p)
  | inr e ↦ rw e (extend-NoSlash c (split_on slash p) e (split_on-NoSlash p))
]

-- Plain segments are kept, and an empty one is not.
pub clean_segment-plain :
    (kept : List Text) (seg : Text) → IsPlain seg → clean_segment kept seg ≡ kept ++ (seg ∷ [])
unfolding clean_segment
clean_segment-plain kept seg (a, b, d, l) = ground (arith, a, b, d)
