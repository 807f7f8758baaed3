-- ===== src/Ctrl/Paths.antt =====
-- internal/agent/ctrlfilter/canonical.go: the paths that go through the gate.
pub mod Plain
pub mod Canonical
use poolpilot_relay.Prelude.{
  Bool, List, [], all, eqb, false, if◌then◌else◌, ltb, not, true, ℕ, ◌&&◌, ◌++◌, ◌||◌, ◌∷◌,
}
use poolpilot_relay.Go.Text.{Text, codes, is_empty, same_text, split_on}
use poolpilot_relay.Go.Text.Split.{join_on}

abbrev pub slash : ℕ
slash = b'/'

abbrev pub drop_last {ℓ} : {A : Type ℓ} → List A → List A
drop_last [] = []
drop_last (x ∷ []) = []
drop_last (x ∷ y ∷ more) = x ∷ drop_last (y ∷ more)

-- `path.Clean`, on a path that starts with a slash: the segments that it keeps.
unfoldable pub clean_segment : List Text → Text → List Text
clean_segment kept seg =
    if is_empty seg || same_text seg (codes ".")
    then kept
    else if same_text seg (codes "..")
    then drop_last kept
    else kept ++ (seg ∷ [])

unfoldable pub clean_segments : List Text → List Text → List Text
unfolding clean_segment
clean_segments kept [] = kept
clean_segments kept (seg ∷ segs) = clean_segments (clean_segment kept seg) segs

unfoldable pub clean_path : Text → Text
unfolding clean_segments
clean_path p = slash ∷ join_on slash (clean_segments [] (split_on slash p))

abbrev pub starts_with_slash : Text → Bool
starts_with_slash [] = false
starts_with_slash (c ∷ p) = eqb c slash

-- The characters that the loop and the test before it let through.
unfoldable pub is_allowed : ℕ → Bool
is_allowed c = not (eqb c b'%') && not (ltb c 0x20 || eqb c 0x7f || eqb c b';')

-- `isCanonicalPath`, by the URL's RawPath and Path.
unfoldable pub is_canonical_path : Text → Text → Bool
unfolding clean_path is_allowed
is_canonical_path raw_path p =
    if not (is_empty raw_path)
    then false
    else if not (starts_with_slash p)
    then false
    else if not (all is_allowed p)
    then false
    else if same_text (clean_path p) p
    then true
    else same_text (clean_path p ++ (slash ∷ [])) p
