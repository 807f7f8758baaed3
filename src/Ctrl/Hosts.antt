-- ===== src/Ctrl/Hosts.antt =====
-- internal/agent/ctrlfilter/server.go: the controller that a Host header names.
use poolpilot_relay.Prelude.{
  Bool, List, Option, [], any, eqb, if◌then◌else◌, none, not, some, ◌&&◌, ◌||◌, ◌∷◌,
}
use poolpilot_relay.Go.Text.{Text, codes, same_text, split_on}
use poolpilot_relay.Go.Text.Split.{lacks}
use poolpilot_relay.Go.Time.{after}

unfoldable pub trim_suffix : Text → Text → Text
trim_suffix suffix [] = []
trim_suffix suffix (c ∷ s) =
    let rest = trim_suffix suffix s in if same_text (c ∷ s) suffix then [] else c ∷ rest

abbrev pub first_part : List Text → Text
first_part [] = []
first_part (p ∷ ps) = p

abbrev pub brackets : Text → Bool
brackets s = any (λ c. eqb c b'[' || eqb c b']') s

-- `net.SplitHostPort`, by its host: of `host:port`, and of `[host]:port`.
abbrev pub plain_host : List Text → Option Text
plain_host [] = none
plain_host (h ∷ []) = none
plain_host (h ∷ port ∷ []) = if brackets h || brackets port then none else some h
plain_host (h ∷ port ∷ more ∷ rest) = none

abbrev pub bracketed_host : List Text → Option Text
bracketed_host [] = none
bracketed_host (h ∷ []) = none
bracketed_host (h ∷ [] ∷ []) = none
bracketed_host (h ∷ (c ∷ port) ∷ []) =
    if eqb c b':' && lacks b':' port && not (brackets h || brackets port) then some h else none
bracketed_host (h ∷ after ∷ more ∷ rest) = none

unfoldable pub split_host_port : Text → Option Text
split_host_port [] = none
split_host_port (c ∷ s) =
    if eqb c b'[' then bracketed_host (split_on b']' s) else plain_host (split_on b':' (c ∷ s))

abbrev pub e2e_subdomain_suffix : Text
e2e_subdomain_suffix = codes "-e2e"

unfoldable pub guid_from_host : Text → Text
unfolding split_host_port trim_suffix
guid_from_host host =
    let h : Text = elim (split_host_port host) [ none ↦ host | some h ↦ h ] in
    trim_suffix e2e_subdomain_suffix (first_part (split_on b'.' h))
