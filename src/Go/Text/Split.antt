-- ===== src/Go/Text/Split.antt =====
-- Package strings: what splitting a text at a character leaves, and putting the parts together.
use poolpilot_relay.Prelude.{
  Bool, List, [], all, ap, arith, eqb, false, if◌then◌else◌, not, refl, true, ℕ, ◌++◌, ◌∙◌, ◌∷◌,
  ◌≡◌,
}
use poolpilot_relay.Go.Text.{Text, extend, split_on}

abbrev pub join_on : ℕ → List Text → Text
join_on sep [] = []
join_on sep (p ∷ []) = p
join_on sep (p ∷ q ∷ more) = p ++ (sep ∷ join_on sep (q ∷ more))

abbrev pub lacks : ℕ → Text → Bool
lacks sep s = all (λ c. not (eqb c sep)) s

join_on-extend :
    (sep c : ℕ) (parts : List Text) → join_on sep (extend c parts) ≡ c ∷ join_on sep parts
join_on-extend sep c [] = refl
join_on-extend sep c (p ∷ []) = refl
join_on-extend sep c (p ∷ q ∷ more) = refl

extend-cons :
    (c : ℕ) (parts : List Text) → (p : Text) × (ps : List Text) × (extend c parts ≡ p ∷ ps)
extend-cons c [] = (c ∷ [], [], refl)
extend-cons c (p ∷ ps) = (c ∷ p, ps, refl)

if-cons :
    (b : Bool) (c : ℕ) (parts : List Text)
    → (p : Text) × (ps : List Text) × ((if b then [] ∷ parts else extend c parts) ≡ p ∷ ps)
if-cons true c parts = ([], parts, refl)
if-cons false c parts = extend-cons c parts

split_on-cons : (sep : ℕ) (s : Text) → (p : Text) × (ps : List Text) × (split_on sep s ≡ p ∷ ps)
unfolding split_on
split_on-cons sep [] = ([], [], refl)
split_on-cons sep (c ∷ s) = if-cons (eqb c sep) c (split_on sep s)

join_on-nil :
    (sep : ℕ) (parts : List Text) (p : Text) (ps : List Text)
    → parts ≡ p ∷ ps
    → join_on sep ([] ∷ parts) ≡ sep ∷ join_on sep parts
join_on-nil sep parts p ps e = rw e refl

join_on-step :
    (sep c : ℕ) (parts : List Text) (p : Text) (ps : List Text)
    → parts ≡ p ∷ ps
    → join_on sep (if eqb c sep then [] ∷ parts else extend c parts) ≡ c ∷ join_on sep parts
join_on-step sep c parts p ps e =
    ground (arith, join_on-nil sep parts p ps e, join_on-extend sep c parts)

-- Joining the parts gives the text back.
pub join_on-split_on : (sep : ℕ) (s : Text) → join_on sep (split_on sep s) ≡ s
unfolding split_on
join_on-split_on sep [] = refl
join_on-split_on sep (c ∷ s) =
    let (p, ps, e) = split_on-cons sep s in
    join_on-step sep c (split_on sep s) p ps e ∙ ap (λ r. c ∷ r) (join_on-split_on sep s)

-- A text without the separator is one part.
pub split_on-lacks : (sep : ℕ) (s : Text) → lacks sep s ≡ true → split_on sep s ≡ s ∷ []
unfolding split_on
split_on-lacks sep [] h = refl
split_on-lacks sep (c ∷ s) h = ground (arith, h, split_on-lacks sep s)

-- A first part without the separator is split off.
pub split_on-append :
    (sep : ℕ) (p rest : Text)
    → lacks sep p ≡ true
    → split_on sep (p ++ (sep ∷ rest)) ≡ p ∷ split_on sep rest
unfolding split_on
split_on-append sep [] rest h = ground arith
split_on-append sep (c ∷ p) rest h = ground (arith, h, split_on-append sep p rest)

pub split_on-two :
    (sep : ℕ) (p q : Text)
    → lacks sep p ≡ true
    → lacks sep q ≡ true
    → split_on sep (p ++ (sep ∷ q)) ≡ p ∷ q ∷ []
split_on-two sep p q hp hq = split_on-append sep p q hp ∙ ap (λ r. p ∷ r) (split_on-lacks sep q hq)

pub split_on-three :
    (sep : ℕ) (p q r : Text)
    → lacks sep p ≡ true
    → lacks sep q ≡ true
    → lacks sep r ≡ true
    → split_on sep (p ++ (sep ∷ q ++ (sep ∷ r))) ≡ p ∷ q ∷ r ∷ []
split_on-three sep p q r hp hq hr =
    split_on-append sep p (q ++ (sep ∷ r)) hp ∙ ap (λ parts. p ∷ parts) (split_on-two sep q r hq hr)
