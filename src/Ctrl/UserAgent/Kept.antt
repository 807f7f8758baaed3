-- ===== src/Ctrl/UserAgent/Kept.antt =====
-- internal/useragent/useragent.go: what a header holds after others were deleted or set.
use poolpilot_relay.Prelude.{
  Bool, Bool-cases, [], any, ap, arith, false, filter, inl, inr, not, refl, subst, sym, true, ◌∷◌,
  ◌≡◌,
}
use poolpilot_relay.Ctrl.UserAgent.{
  Headers, del_header, get_header, set_agent, set_default_agent, set_header, user_agent,
}
use poolpilot_relay.Go.Text.{Text, same_text, same_text_iff}

-- A filter on names keeps the value of a name that it keeps, and leaves nothing of another.
pub get_header-kept :
    (p : Text → Bool) (name : Text) (hs : Headers)
    → p name ≡ true
    → get_header name (filter (λ h. p h.0) hs) ≡ get_header name hs
unfolding get_header
get_header-kept p name [] k = refl
get_header-kept p name ((n, v) ∷ more) k =
    let rest = get_header-kept p name more k in
    elim (Bool-cases (same_text n name)) [
      | inl e ↦
          let own : p n ≡ true = subst (λ m. p m ≡ true) (sym ((same_text_iff n name).0 e)) k in
          ground (arith, e, own)
      | inr e ↦ elim (Bool-cases (p n)) [
        | inl q ↦ ground (arith, e, q, rest)
        | inr q ↦ ground (arith, e, q, rest)
      ]
    ]

pub get_header-dropped :
    (p : Text → Bool) (name : Text) (hs : Headers)
    → p name ≡ false
    → get_header name (filter (λ h. p h.0) hs) ≡ []
unfolding get_header
get_header-dropped p name [] k = refl
get_header-dropped p name ((n, v) ∷ more) k =
    let rest = get_header-dropped p name more k in
    elim (Bool-cases (same_text n name)) [
      | inl e ↦
          let own : p n ≡ false = subst (λ m. p m ≡ false) (sym ((same_text_iff n name).0 e)) k in
          ground (arith, e, own, rest)
      | inr e ↦ elim (Bool-cases (p n)) [
        | inl q ↦ ground (arith, e, q, rest)
        | inr q ↦ ground (arith, e, q, rest)
      ]
    ]

-- No name of the list passes the test.
abbrev pub Without : (Text → Bool) → Headers → Type 0
Without p hs = any (λ h. p h.0) hs ≡ false

pub filter-Without : (p : Text → Bool) (hs : Headers) → Without p (filter (λ h. not (p h.0)) hs)
filter-Without p [] = refl
filter-Without p ((n, v) ∷ more) = ground (arith, filter-Without p more)

pub filtered-Without :
    (p : Text → Bool) (q : Text × Text → Bool) (hs : Headers)
    → Without p hs
    → Without p (filter q hs)
filtered-Without p q [] h = refl
filtered-Without p q ((n, v) ∷ more) h = elim (Bool-cases (q (n, v))) [
  | inl e ↦ ground (arith, e, h, filtered-Without p q more)
  | inr e ↦ ground (arith, e, h, filtered-Without p q more)
]

pub get_header-set_header :
    (name other value : Text) (hs : Headers)
    → same_text other name ≡ false
    → same_text name other ≡ false
    → get_header name (set_header other value hs) ≡ get_header name hs
unfolding get_header set_header del_header
get_header-set_header name other value hs h k =
    ground (arith, h, get_header-kept (λ n. not (same_text n other)) name hs (ap not k))

-- The default agent changes no other header.
pub set_default_agent-other :
    (agent name : Text) (hs : Headers)
    → same_text user_agent name ≡ false
    → same_text name user_agent ≡ false
    → get_header name (set_default_agent agent hs) ≡ get_header name hs
unfolding set_default_agent set_agent
set_default_agent-other agent name hs h k =
    ground (arith, get_header-set_header name user_agent agent hs h k)

pub set_default_agent-Without :
    (p : Text → Bool) (agent : Text) (hs : Headers)
    → p user_agent ≡ false
    → Without p hs
    → Without p (set_default_agent agent hs)
unfolding set_default_agent set_agent set_header del_header
set_default_agent-Without p agent hs h w =
    ground (arith, h, w, filtered-Without p (λ e. not (same_text e.0 user_agent)) hs w)
